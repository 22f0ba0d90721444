-- ===== src/Shape.antt =====
-- src/shape.rs: what is stored of a call's arguments and results, in place of their contents.
mod Paths
mod Hidden
mod Examples
use Prim.Native.Char.{code}
use Prim.Native.String
use mcp_eval.Prelude.{
  ℕ, ◌+◌, String, Bool, true, false, not, ◌&&◌, ◌||◌, Option, none, some, List, [], ◌∷◌, ◌++◌, any,
  map_some, and_then, unwrap_or, length, leb, ltb, ◌==◌, str_eq, append, strip_prefix, byte_length,
  if◌then◌else◌, filter_map, is_empty, bytes, map, tilde, slash,
}
use mcp_eval.Json.{
  Value, Items, Fields, Number, null, bool, number, string, array, object, nil, cons, end, field,
  unsigned, to_fields, as_str, elements, lookup,
}

pub data PathSegment : Type 0 where
  key : String → PathSegment
  item : PathSegment

abbrev pub SchemaPath : Type 0
SchemaPath = List PathSegment

-- The derived `==`
abbrev pub same_segment : PathSegment → PathSegment → Bool
same_segment (key a) (key b) = str_eq a b
same_segment item item = true
same_segment _ _ = false

abbrev pub same_path : SchemaPath → SchemaPath → Bool
same_path [] [] = true
same_path (a ∷ more) (b ∷ rest) = same_segment a b && same_path more rest
same_path _ _ = false

-- The enum values found in a schema, with the paths they stand at.
abbrev pub Found : Type 0
Found = List (SchemaPath × List String)

-- `by_tool`: for each tool, what its schema declares.
pub record EnumIndex : Type 0 where
  pub by_tool : List (String × Found)

abbrev pub holds : List String → String → Bool
holds values value = any (λ v. str_eq v value) values

unfoldable pub is_enum_at : EnumIndex → String → SchemaPath → String → Bool
is_enum_at index tool path value =
    any (λ e. same_path e.0 path && holds e.1 value) (unwrap_or [] (lookup tool index.by_tool))

-- `~0` and `~1` stand for `~` and `/`.
unfoldable pub decode_key : String → Option String
decode_key String.[] = some ""
decode_key (String.◌∷◌ c String.[]) = if code c == b'~' then none else some (String.◌∷◌ c "")
decode_key (String.◌∷◌ c (String.◌∷◌ d text)) =
    let plain : Option String = decode_key (String.◌∷◌ d text) in
    let escaped : Option String = decode_key text in
    if not (code c == b'~')
    then map_some (λ rest. String.◌∷◌ c rest) plain
    else if code d == b'0'
    then map_some (λ rest. String.◌∷◌ tilde rest) escaped
    else if code d == b'1'
    then map_some (λ rest. String.◌∷◌ slash rest) escaped
    else none

-- A text before the first part of a split
abbrev pub extend_first : (String → String) → List String → List String
extend_first f [] = []
extend_first f (part ∷ parts) = f part ∷ parts

-- `split('/')`
unfoldable pub split : String → List String
split String.[] = "" ∷ []
split (String.◌∷◌ c text) =
    let parts : List String = split text in
    if code c == b'/' then "" ∷ parts else extend_first (λ part. String.◌∷◌ c part) parts

unfoldable pub segments : List String → Option SchemaPath
unfolding decode_key
segments [] = some []
segments (kind ∷ []) = if str_eq kind "i" then some (item ∷ []) else none
segments (kind ∷ part ∷ parts) =
    let after_key : Option SchemaPath = segments parts in
    let after_item : Option SchemaPath = segments (part ∷ parts) in
    if str_eq kind "k"
    then and_then (decode_key part) (λ name. map_some (λ path. key name ∷ path) after_key)
    else if str_eq kind "i"
    then map_some (λ path. item ∷ path) after_item
    else none

abbrev pub path_of : String → Option String → Option SchemaPath
path_of path none = some (key path ∷ [])
path_of path (some encoded) = segments (split encoded)

unfoldable pub public_path : String → Option SchemaPath
unfolding segments split
public_path path =
    if is_empty (bytes path)
    then some []
    else if str_eq path "[]"
    then some (item ∷ [])
    else path_of path (strip_prefix b'/' path)

abbrev pub at_path : EnumIndex → String → String → Option SchemaPath → Bool
at_path index tool value none = false
at_path index tool value (some path) = is_enum_at index tool path value

unfoldable pub is_enum : EnumIndex → String → String → String → Bool
unfolding public_path is_enum_at
is_enum index tool path value = at_path index tool value (public_path path)

-- What a value stands for while a schema is walked: a schema, a list of schemas, or the schemas of
-- named properties.
pub data Place : Type 0 where
  schema branches names nothing : Place

-- The place of the value of a keyword
unfoldable pub place_of : String → Place
place_of name =
    if str_eq name "oneOf" || str_eq name "anyOf" || str_eq name "allOf"
    then branches
    else if str_eq name "properties"
    then names
    else if str_eq name "items"
    then schema
    else nothing

abbrev pub path_below : SchemaPath → String → SchemaPath
path_below path name = if str_eq name "items" then path ++ item ∷ [] else path

-- The values of an `enum`
abbrev pub enum_values : SchemaPath → String → Value → Found
enum_values path name (array vs) =
    if str_eq name "enum" then (path, filter_map as_str (elements vs)) ∷ [] else []
enum_values path name _ = []

-- `walk_schema`, one keyword of an object after another: no keyword stands twice in an object.
unfoldable mutual
  unfolding place_of

  pub walk : Place → SchemaPath → Value → Found
  walk schema path (object fs) = walk_keywords path fs
  walk branches path (array vs) = walk_items path vs
  walk names path (object fs) = walk_names path fs
  walk _ path _ = []

  pub walk_keywords : SchemaPath → Fields → Found
  walk_keywords path end = []
  walk_keywords path (field k v fs) =
      enum_values path k v ++ (walk (place_of k) (path_below path k) v ++ walk_keywords path fs)

  pub walk_items : SchemaPath → Items → Found
  walk_items path nil = []
  walk_items path (cons v vs) = walk schema path v ++ walk_items path vs

  pub walk_names : SchemaPath → Fields → Found
  walk_names path end = []
  walk_names path (field k v fs) = walk schema (path ++ key k ∷ []) v ++ walk_names path fs

unfoldable pub learn : String → Value → EnumIndex → EnumIndex
unfolding walk
learn tool value index = record { by_tool = (tool, walk schema [] value) ∷ index.by_tool }

unfoldable pub string_bucket : String → String
string_bucket s =
    if leb (byte_length s) 8
    then "str<8"
    else if leb (byte_length s) 32
    then "str<32"
    else if leb (byte_length s) 128
    then "str<128"
    else if leb (byte_length s) 512
    then "str<512"
    else if leb (byte_length s) 4096
    then "str<4096"
    else "str>4096"

-- `url::Host`
pub data Host : Type 0 where
  ipv4 ipv6 : Host
  domain : String → Host

-- What the shape of a text needs of uuid, url, psl2 and serde_json.
pub record Recognizers : Type 0 where
  pub is_uuid : String → Bool
  -- `Url::parse`: the scheme and the host
  pub parse_url : String → Option (String × Option Host)
  -- `psl2::analyze`: whether the suffix is known, and the registrable domain
  pub analyze : String → Option (Bool × Option String)
  pub print_number : Number → String

-- `char::is_control`
abbrev pub is_control : ℕ → Bool
is_control c = ltb c 32 || leb 127 c && ltb c 160

abbrev pub has_control : String → Bool
has_control String.[] = false
has_control (String.◌∷◌ c s) = is_control (code c) || has_control s

-- The byte in lower case
abbrev pub lower : ℕ → ℕ
lower b = if leb b'A' b && leb b b'Z' then b + 32 else b

abbrev pub same_bytes : List ℕ → List ℕ → Bool
same_bytes [] [] = true
same_bytes (a ∷ more) (b ∷ rest) = a == b && same_bytes more rest
same_bytes _ _ = false

abbrev pub is_localhost : String → Bool
is_localhost host = same_bytes (map lower (bytes host)) (bytes "localhost")

module _ (r : Recognizers) where
  abbrev pub known_domain : Option (Bool × Option String) → String
  known_domain none = "host"
  known_domain (some (false, registrable)) = "host"
  known_domain (some (true, registrable)) = unwrap_or "public-suffix" registrable

  abbrev pub domain_of : Host → String
  domain_of ipv4 = "ip"
  domain_of ipv6 = "ip"
  domain_of (domain host) = if is_localhost host then "localhost" else known_domain (r.analyze host)

  abbrev pub domain_of_url : String × Option Host → Option String
  domain_of_url (scheme, host) =
      if str_eq scheme "http" || str_eq scheme "https" then map_some domain_of host else none

  unfoldable pub registrable_domain : String → Option String
  registrable_domain s = if has_control s then none else and_then (r.parse_url s) domain_of_url

module _ (r : Recognizers) (index : EnumIndex) (tool : String) where
  abbrev pub shape_of_domain : String → Option String → String
  shape_of_domain s (some name) = append "url:" name
  shape_of_domain s none = string_bucket s

  unfoldable pub string_shape : String → SchemaPath → String
  unfolding is_enum_at string_bucket registrable_domain
  string_shape s path =
      if is_enum_at index tool path s
      then append "enum:" s
      else if r.is_uuid s
      then "uuid"
      else shape_of_domain s (registrable_domain r s)

  abbrev pub bool_shape : Bool → String
  bool_shape true = "bool:true"
  bool_shape false = "bool:false"

  unfoldable mutual
    unfolding string_shape

    pub shape_at : SchemaPath → Value → Value
    shape_at path null = string "null"
    shape_at path (bool b) = string (bool_shape b)
    shape_at path (number n) = string (append "num:" (r.print_number n))
    shape_at path (string s) = string (string_shape s path)
    shape_at path (array vs) = object (
        to_fields (
          ("array", number (unsigned (length (elements vs))))
          ∷ ("items", first_shape (path ++ item ∷ []) vs)
          ∷ []))
    shape_at path (object fs) = object (shape_fields path fs)

    -- The shape of the first item, if there is one
    pub first_shape : SchemaPath → Items → Value
    first_shape path nil = string "empty"
    first_shape path (cons v vs) = shape_at path v

    pub shape_fields : SchemaPath → Fields → Fields
    shape_fields path end = end
    shape_fields path (field k v fs) =
        field k (shape_at (path ++ key k ∷ []) v) (shape_fields path fs)

  unfoldable pub shape : Value → Value
  unfolding shape_at
  shape value = shape_at [] value
