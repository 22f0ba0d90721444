-- ===== src/Diff/Comparable.antt =====
-- What two reports share when src/diff.rs calls their readiness comparable.
use mcp_eval.Prelude.{
  ℕ, ◌≡◌, ◌↔◌, refl, sym, ap, arith, String, Bool, true, false, ◌&&◌, Option, none, some, List, [],
  ◌∷◌, str_eq, eq_refl, eq_iff, is_some, ◌==◌, ==_iff,
}
use mcp_eval.Score.Fold.{Readiness}
use mcp_eval.Measurement.{MeasurementProfile}
use mcp_eval.Probe.Report.{ProbeReport}
use mcp_eval.Diff.Movement.{movement_of, comparable, option_eq, list_eq, flag_eq, profile_eq}

list_eq_self : (xs : List String) → list_eq str_eq xs xs ≡ true
list_eq_self [] = refl
list_eq_self (x ∷ xs) = rw (eq_refl x) (list_eq_self xs)

option_eq_self : (o : Option String) → option_eq str_eq o o ≡ true
option_eq_self none = refl
option_eq_self (some x) = eq_refl x

flag_eq_self : (b : Bool) → flag_eq b b ≡ true
flag_eq_self true = refl
flag_eq_self false = refl

number_eq_self : (n : ℕ) → (n == n) ≡ true
number_eq_self n = ground arith

pub profile_eq_self : (p : MeasurementProfile) → profile_eq p p ≡ true
profile_eq_self p =
    rw
      (
        eq_refl p.schema,
        eq_refl p.evaluator_version,
        eq_refl p.platform,
        eq_refl p.architecture,
        eq_refl p.client_capabilities,
        flag_eq_self p.attested_read_only,
        list_eq_self p.skip_tools,
        number_eq_self p.call_timeout_ms,
        number_eq_self p.repeats,
        option_eq_self p.arguments_sha256,
      )
      refl

and_true : (a b : Bool) → (a && b) ≡ true → (a ≡ true) × (b ≡ true)
and_true true b h = (refl, h)
and_true false b h = cc

list_eq_sound : (xs ys : List String) → list_eq str_eq xs ys ≡ true → xs ≡ ys
list_eq_sound [] [] h = refl
list_eq_sound [] (y ∷ ys) h = cc
list_eq_sound (x ∷ xs) [] h = cc
list_eq_sound (x ∷ xs) (y ∷ ys) h =
    let (a, b) = and_true (str_eq x y) (list_eq str_eq xs ys) h in
    λ i. ((eq_iff x y).0 a) i ∷ (list_eq_sound xs ys b) i

option_eq_sound {ℓ} :
    {A : Type ℓ} (eq : A → A → Bool)
    → ((a b : A) → eq a b ≡ true → a ≡ b)
    → (o p : Option A) → option_eq eq o p ≡ true
    → o ≡ p
option_eq_sound eq sound none none h = refl
option_eq_sound eq sound none (some b) h = cc
option_eq_sound eq sound (some a) none h = cc
option_eq_sound eq sound (some a) (some b) h = ap some (sound a b h)

flag_eq_sound : (a b : Bool) → flag_eq a b ≡ true → a ≡ b
flag_eq_sound true b h = sym h
flag_eq_sound false false h = refl
flag_eq_sound false true h = cc

text_sound : (a b : String) → str_eq a b ≡ true → a ≡ b
text_sound a b h = (eq_iff a b).0 h

profile_eq_sound : (p q : MeasurementProfile) → profile_eq p q ≡ true → p ≡ q
profile_eq_sound p q h =
    let (t9, h10) = and_true _ _ h in
    let (t8, h9) = and_true _ _ t9 in
    let (t7, h8) = and_true _ _ t8 in
    let (t6, h7) = and_true _ _ t7 in
    let (t5, h6) = and_true _ _ t6 in
    let (t4, h5) = and_true _ _ t5 in
    let (t3, h4) = and_true _ _ t4 in
    let (t2, h3) = and_true _ _ t3 in
    let (h1, h2) = and_true _ _ t2 in
    λ i. record {
      schema = text_sound p.schema q.schema h1 i;
      evaluator_version = text_sound p.evaluator_version q.evaluator_version h2 i;
      platform = text_sound p.platform q.platform h3 i;
      architecture = text_sound p.architecture q.architecture h4 i;
      client_capabilities = text_sound p.client_capabilities q.client_capabilities h5 i;
      attested_read_only = flag_eq_sound p.attested_read_only q.attested_read_only h6 i;
      skip_tools = list_eq_sound p.skip_tools q.skip_tools h7 i;
      call_timeout_ms = (==_iff p.call_timeout_ms q.call_timeout_ms).0 h8 i;
      repeats = (==_iff p.repeats q.repeats).0 h9 i;
      arguments_sha256 =
          option_eq_sound str_eq text_sound p.arguments_sha256 q.arguments_sha256 h10 i;
    }

-- Both reports carry a readiness, under one standard and one measurement profile.
pub record IsOneScale (b c : ProbeReport) : Type 0 where
  pub before : Readiness
  pub after : Readiness
  pub has_before : b.readiness ≡ some before
  pub has_after : c.readiness ≡ some after
  pub profile : MeasurementProfile
  pub before_profile : before.measurement_profile ≡ some profile
  pub after_profile : after.measurement_profile ≡ some profile
  pub standard : before.standard ≡ after.standard

has_profile :
    (o o' : Option MeasurementProfile)
    → is_some o ≡ true
    → option_eq profile_eq o o' ≡ true
    → (p : MeasurementProfile) × (o ≡ some p) × (o' ≡ some p)
has_profile none o' h k = cc
has_profile (some p) o' h k =
    (p, refl, sym (option_eq_sound profile_eq profile_eq_sound (some p) o' k))

both_scored :
    (x y : ProbeReport) (b c : Option Readiness) (l l' : Option ℕ)
    → comparable (
        movement_of
          (record x { readiness = b; legacy_score = l })
          (record y { readiness = c; legacy_score = l' }))
      ≡ true
    → IsOneScale
        (record x { readiness = b; legacy_score = l })
        (record y { readiness = c; legacy_score = l' })
both_scored x y none c none l' h = cc
both_scored x y none none (some l) none h = cc
both_scored x y none c (some l) l' h = cc
both_scored x y (some b) none l none h = cc
both_scored x y (some b) none l (some l') h = cc
both_scored x y (some b) (some c) l l' h =
    let (t, q) = and_true _ _ h in
    let (s, p) = and_true _ _ t in
    let (profile, hb, hc) = has_profile b.measurement_profile c.measurement_profile p q in
    record {
      before = b;
      after = c;
      has_before = refl;
      has_after = refl;
      profile = profile;
      before_profile = hb;
      after_profile = hc;
      standard = text_sound b.standard c.standard s;
    }

one_scale_comparable : (b c : ProbeReport) → IsOneScale b c → comparable (movement_of b c) ≡ true
one_scale_comparable b c s =
    rw (s.has_before, s.has_after)
      (rw
        (
          s.before_profile,
          s.after_profile,
          s.standard,
          eq_refl s.after.standard,
          profile_eq_self s.profile,
        )
        refl)

-- The readiness of two reports is comparable exactly when both carry a readiness, not a legacy
-- score, with the same standard and the same recorded measurement profile.
pub comparable-iff-IsOneScale :
    (b c : ProbeReport) → (comparable (movement_of b c) ≡ true) ↔ IsOneScale b c
comparable-iff-IsOneScale b c = (
  both_scored b c b.readiness c.readiness b.legacy_score c.legacy_score,
  one_scale_comparable b c,
)
