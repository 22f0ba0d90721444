-- ===== src/Diff/Matched.antt =====
-- How src/diff.rs matches the cases of two reports.
use mcp_eval.Prelude.{
  ℕ, suc, ◌+◌, ◌≡◌, refl, sym, ap, ◌∙◌, arith, Bool, true, false, ◌&&◌, ◌||◌, Option, none, some,
  List, [], ◌∷◌, any, All, count_if, length, find, map_some, is_some, is_none, prepend, ltb,
  eq_refl, filter, map, not, str_eq, String, if◌then◌else◌, Bool-cases, Option-cases, inl, inr,
}
use mcp_eval.Probe.ProbeKind
use mcp_eval.Probe.FailureReason.{FailureReason, FailureReason-discrete}
use mcp_eval.Probe.Report.{CaseReport}
use mcp_eval.Diff.Cases.{
  CaseDiff, Verdict, regressed, fixed, changed, unchanged, same_case, same_reason, verdict_of,
  case_diff, counterpart, diff_cases, only_in,
}
use mcp_eval.Probe.Report.{ProbeReport}
use mcp_eval.Diff.Report.{
  diff, is_regressed, is_fixed, is_changed, is_unchanged, regressed_count, fixed_count,
  changed_count, unchanged_count, gated,
}

find-any {ℓ} : {A : Type ℓ} (p : A → Bool) (xs : List A) → is_some (find p xs) ≡ any p xs
find-any p [] = refl
find-any p (x ∷ xs) = elim (Bool-cases (p x)) [ inl h ↦ rw h refl | inr h ↦ rw h (find-any p xs) ]

one_verdict :
    (v : Verdict) (r f c u n : ℕ)
    → r + f + c + u ≡ n
    → (if elim v [ regressed ↦ true | _ ↦ false ] then suc r else r)
        + (if elim v [ fixed ↦ true | _ ↦ false ] then suc f else f)
        + (if elim v [ changed ↦ true | _ ↦ false ] then suc c else c)
        + (if elim v [ unchanged ↦ true | _ ↦ false ] then suc u else u)
      ≡ suc n
one_verdict regressed r f c u n h = omega arith
one_verdict fixed r f c u n h = omega arith
one_verdict changed r f c u n h = omega arith
one_verdict unchanged r f c u n h = omega arith

partition :
    (ds : List CaseDiff)
    → count_if is_regressed ds
        + count_if is_fixed ds
        + count_if is_changed ds
        + count_if is_unchanged ds
      ≡ length ds
partition [] = refl
partition (d ∷ ds) =
    one_verdict d.verdict (count_if is_regressed ds) (count_if is_fixed ds) (count_if is_changed ds)
      (count_if is_unchanged ds) (length ds) (partition ds)

matched_or_added :
    (baseline cs : List CaseReport)
    → length (diff_cases baseline cs) + length (only_in cs baseline) ≡ length cs
unfolding diff_cases only_in counterpart
matched_or_added baseline [] = refl
matched_or_added baseline (c ∷ cs) = elim (Option-cases (find (λ b. same_case b c) baseline)) [
  | inl h ↦
      rw (h, sym (find-any (λ b. same_case b c) baseline) ∙ ap is_some h)
        (omega (arith, matched_or_added baseline cs))
  | inr (b, h) ↦
      rw (h, sym (find-any (λ b. same_case b c) baseline) ∙ ap is_some h)
        (omega (arith, matched_or_added baseline cs))
]

-- What tells the cases of a report apart: the id and the label of the probe.
abbrev pub label : CaseReport → String × String
label k = (k.id, ProbeKind.as_str k.probe)

-- A report of a case of this label is in the list.
abbrev pub is_in : List CaseReport → CaseReport → Bool
is_in cases k =
    any (λ c. str_eq c.id k.id && str_eq (ProbeKind.as_str c.probe) (ProbeKind.as_str k.probe))
      cases

label_of_diff : (b k : CaseReport) → ((case_diff b k).id, (case_diff b k).probe) ≡ label k
unfolding case_diff
label_of_diff b k = refl

matched_labels :
    (baseline cs : List CaseReport)
    → map (λ d. (d.id, d.probe)) (diff_cases baseline cs) ≡ map label (filter (is_in baseline) cs)
unfolding diff_cases counterpart
matched_labels baseline [] = refl
matched_labels baseline (c ∷ cs) = elim (Option-cases (find (λ b. same_case b c) baseline)) [
  | inl h ↦
      rw (h, sym (find-any (λ b. same_case b c) baseline) ∙ ap is_some h)
        (matched_labels baseline cs)
  | inr (b, h) ↦
      rw (h, sym (find-any (λ b. same_case b c) baseline) ∙ ap is_some h)
        (rw (matched_labels baseline cs, label_of_diff b c) refl)
]

-- Every case of the current report is told about once. The matched cases of a diff are, in order and with
-- their ids and probes, the cases of the current report that are in the baseline too. The added and
-- the missing ones are the ids of the cases that only the current report, or only the baseline, has.
-- The four counts add up to the matched cases, and these with the added ones to the current report.
pub counts_partition :
    (b c : ProbeReport)
    → (map (λ d. (d.id, d.probe)) (diff b c).cases ≡ map label (filter (is_in b.cases) c.cases))
      × ((diff b c).added ≡ map (λ k. k.id) (filter (λ k. not (is_in b.cases k)) c.cases))
      × ((diff b c).missing ≡ map (λ k. k.id) (filter (λ k. not (is_in c.cases k)) b.cases))
      × (regressed_count (diff b c)
            + fixed_count (diff b c)
            + changed_count (diff b c)
            + unchanged_count (diff b c)
          ≡ length (diff b c).cases)
      × (length (diff b c).cases + length (diff b c).added ≡ length c.cases)
unfolding diff regressed_count fixed_count changed_count unchanged_count only_in
counts_partition b c = (
  matched_labels b.cases c.cases,
  refl,
  refl,
  partition (diff_cases b.cases c.cases),
  matched_or_added b.cases c.cases,
)

-- A case that fails now after its counterpart passed.
abbrev pub fails_after : Option CaseReport → CaseReport → Bool
fails_after none current = false
fails_after (some b) current = is_none b.reason && is_some current.reason

regressed_verdict :
    (b c : Option FailureReason)
    → elim (verdict_of b c) [ regressed ↦ true | _ ↦ false ] ≡ is_none b && is_some c
unfolding verdict_of
regressed_verdict none none = refl
regressed_verdict none (some c) = refl
regressed_verdict (some b) none = refl
regressed_verdict (some b) (some c) = elim (Bool-cases (same_reason b c)) [
  | inl h ↦ rw h refl
  | inr h ↦ rw h refl
]

gated_case :
    (o : Option CaseReport) (c : CaseReport) (ds : List CaseDiff) (more : Bool)
    → ltb 0 (count_if is_regressed ds) ≡ more
    → ltb 0 (count_if is_regressed (prepend (map_some (λ b. case_diff b c) o) ds))
      ≡ fails_after o c || more
unfolding case_diff
gated_case none c ds more h = h
gated_case (some b) c ds more h =
    rw (regressed_verdict b.reason c.reason)
      (elim (Bool-cases (is_none b.reason && is_some c.reason)) [
        | inl t ↦ rw t (ground arith)
        | inr t ↦ rw t h
      ])

gated_cases :
    (baseline cs : List CaseReport)
    → ltb 0 (count_if is_regressed (diff_cases baseline cs))
      ≡ any (λ c. fails_after (counterpart baseline c) c) cs
unfolding diff_cases
gated_cases baseline [] = refl
gated_cases baseline (c ∷ cs) =
    gated_case (counterpart baseline c) c (diff_cases baseline cs) _ (gated_cases baseline cs)

-- The diff gates exactly when some case of the current report fails whose counterpart, the first
-- case of the baseline with its id and probe, passed: a case without one never gates.
pub gated-eq-fails_after :
    (b c : ProbeReport)
    → gated (diff b c) ≡ any (λ k. fails_after (counterpart b.cases k) k) c.cases
unfolding gated regressed_count diff
gated-eq-fails_after b c = gated_cases b.cases c.cases

-- No case of the list stands in it twice.
abbrev pub IsDistinct : List CaseReport → Type 0
IsDistinct [] = Unit
IsDistinct (c ∷ cs) = All (λ d. same_case c d ≡ false) cs × IsDistinct cs

same_case_self : (c : CaseReport) → same_case c c ≡ true
same_case_self c = rw (eq_refl c.id, eq_refl (ProbeKind.as_str c.probe)) refl

later_found :
    (c : CaseReport) (cs ds : List CaseReport)
    → All (λ d. same_case c d ≡ false) ds
    → All (λ d. counterpart cs d ≡ some d) ds
    → All (λ d. counterpart (c ∷ cs) d ≡ some d) ds
unfolding counterpart
later_found c cs [] hs fs = tt
later_found c cs (d ∷ ds) (h, hs) (f, fs) = (rw h f, later_found c cs ds hs fs)

each_found : (cs : List CaseReport) → IsDistinct cs → All (λ d. counterpart cs d ≡ some d) cs
unfolding counterpart
each_found [] h = tt
each_found (c ∷ cs) (h, hs) = (rw (same_case_self c) refl, later_found c cs cs h (each_found cs hs))

decided {ℓ} : {A : Type ℓ} (a : A) (d : Dec (a ≡ a)) → elim d [ yes _ ↦ true | no _ ↦ false ] ≡ true
decided a (yes _) = refl
decided a (no n) = absurd (n refl)

verdict_self : (r : Option FailureReason) → verdict_of r r ≡ unchanged
unfolding verdict_of
verdict_self none = refl
verdict_self (some r) = rw (decided r (FailureReason-discrete r r)) refl

every_unchanged :
    (base cs : List CaseReport)
    → All (λ d. counterpart base d ≡ some d) cs
    → count_if is_unchanged (diff_cases base cs) ≡ length cs
unfolding diff_cases case_diff
every_unchanged base [] fs = refl
every_unchanged base (c ∷ cs) (f, fs) =
    rw f (rw (verdict_self c.reason) (ap suc (every_unchanged base cs fs)))

none_only :
    (base cs : List CaseReport) → All (λ d. counterpart base d ≡ some d) cs → only_in cs base ≡ []
unfolding only_in counterpart
none_only base [] fs = refl
none_only base (c ∷ cs) (f, fs) =
    rw (sym (find-any (λ b. same_case b c) base) ∙ ap is_some f) (none_only base cs fs)

none_left : (r f c u l a n : ℕ) → r + f + c + u ≡ l → l + a ≡ n → u ≡ n → ltb 0 r ≡ false
none_left r f c u l a n h k m = ground arith

-- A report without repeated cases that is compared with itself has every case unchanged, nothing
-- missing or added, and does not gate.
pub diff_self :
    (r : ProbeReport)
    → IsDistinct r.cases
    → (unchanged_count (diff r r) ≡ length r.cases)
      × ((diff r r).missing ≡ [])
      × ((diff r r).added ≡ [])
      × (gated (diff r r) ≡ false)
unfolding diff unchanged_count gated regressed_count
diff_self r h =
    let found = each_found r.cases h in
    let all_same = every_unchanged r.cases r.cases found in
    let none_here = none_only r.cases r.cases found in
    let added = matched_or_added r.cases r.cases in
    let counts = partition (diff_cases r.cases r.cases) in
    (all_same, none_here, none_here, none_left _ _ _ _ _ _ _ counts added all_same)
