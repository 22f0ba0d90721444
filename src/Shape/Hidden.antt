-- ===== src/Shape/Hidden.antt =====
-- What the shape of src/shape.rs does not tell.
use mcp_eval.Prelude.{◌≡◌, refl, ap, sym, ◌∙◌, String, Bool, false, none, [], ◌∷◌, ◌++◌, length}
use mcp_eval.Json.{
  Value, Items, Fields, Number, null, bool, number, string, array, object, nil, cons, end, field,
  elements,
}
use mcp_eval.Shape.{
  key, item, SchemaPath, EnumIndex, is_enum_at, Recognizers, registrable_domain, string_bucket,
  string_shape, shape_at, shape_fields, shape,
}

module _ (r : Recognizers) (index : EnumIndex) (tool : String) where
  -- A text that is no enum value at its path, no UUID and no URL with a domain.
  pub record IsPlain (path : SchemaPath) (s : String) : Type 0 where
    pub enum : is_enum_at index tool path s ≡ false
    pub uuid : r.is_uuid s ≡ false
    pub domain : registrable_domain r s ≡ none

  mutual
    -- Values that differ in plain texts of one size class, and in the items of arrays after the
    -- first, which only have to be as many.
    pub data Alike : SchemaPath → Value → Value → Type 0 where
      alike_null : {path : SchemaPath} → Alike path null null
      alike_bool : {path : SchemaPath} (b : Bool) → Alike path (bool b) (bool b)
      alike_number : {path : SchemaPath} (n : Number) → Alike path (number n) (number n)
      alike_string : {path : SchemaPath} (s : String) → Alike path (string s) (string s)
      plain :
          {path : SchemaPath} {s t : String}
          → IsPlain path s
          → IsPlain path t
          → string_bucket s ≡ string_bucket t
          → Alike path (string s) (string t)
      empty : {path : SchemaPath} → Alike path (array nil) (array nil)
      items :
          {path : SchemaPath} {v w : Value} {vs ws : Items}
          → Alike (path ++ item ∷ []) v w
          → length (elements vs) ≡ length (elements ws)
          → Alike path (array (cons v vs)) (array (cons w ws))
      fields :
          {path : SchemaPath} {fs gs : Fields}
          → AlikeFields path fs gs
          → Alike path (object fs) (object gs)

    pub data AlikeFields : SchemaPath → Fields → Fields → Type 0 where
      no_fields : {path : SchemaPath} → AlikeFields path end end
      one_field :
          {path : SchemaPath} (k : String) {v w : Value} {fs gs : Fields}
          → Alike (path ++ key k ∷ []) v w
          → AlikeFields path fs gs
          → AlikeFields path (field k v fs) (field k w gs)

  plain_shape :
      (path : SchemaPath) (s : String)
      → IsPlain path s
      → string_shape r index tool s path ≡ string_bucket s
  unfolding string_shape
  plain_shape path s h = rw (h.enum, h.uuid, h.domain) refl

  mutual
    unfolding shape_at

    shape_at-Alike :
        (path : SchemaPath) (v w : Value)
        → Alike path v w
        → shape_at r index tool path v ≡ shape_at r index tool path w
    shape_at-Alike path v w alike_null = refl
    shape_at-Alike path v w (alike_bool b) = refl
    shape_at-Alike path v w (alike_number n) = refl
    shape_at-Alike path v w (alike_string s) = refl
    shape_at-Alike path v w (plain {s = s} {t = t} p q e) =
        ap (λ x. string x) (plain_shape path s p ∙ e ∙ sym (plain_shape path t q))
    shape_at-Alike path v w empty = refl
    shape_at-Alike path v w (items {v = a} {w = b} h e) =
        rw (e, shape_at-Alike (path ++ item ∷ []) a b h) refl
    shape_at-Alike path v w (fields {fs = fs} {gs = gs} h) =
        ap (λ x. object x) (shape_fields-AlikeFields path fs gs h)

    shape_fields-AlikeFields :
        (path : SchemaPath) (fs gs : Fields)
        → AlikeFields path fs gs
        → shape_fields r index tool path fs ≡ shape_fields r index tool path gs
    shape_fields-AlikeFields path fs gs no_fields = refl
    shape_fields-AlikeFields path fs gs (one_field k {v = v} {w = w} {fs = f} {gs = g} h hs) =
        rw (shape_at-Alike (path ++ key k ∷ []) v w h, shape_fields-AlikeFields path f g hs) refl

  -- The shape tells nothing of a text that is no enum value of its place, no UUID and no URL but its
  -- size class, and nothing of the items of an array but the first and their number.
  pub shape-Alike : (v w : Value) → Alike [] v w → shape r index tool v ≡ shape r index tool w
  unfolding shape
  shape-Alike v w h = shape_at-Alike [] v w h
