-- ===== src/Correlate/Replies.antt =====
-- How src/correlate.rs pairs replies with requests.
use mcp_eval.Prelude.{
  ℕ, suc, ◌-◌, ◌≡◌, refl, String, true, false, Option, none, some, is_some, List, [], ◌∷◌, and_then,
  str_eq, Bool-cases, inl, inr,
}
use mcp_eval.Json.{Value, get, as_str, lookup}
use mcp_eval.Privacy.{valid_tool}
use mcp_eval.Shape.{Recognizers}
use mcp_eval.Correlate.{
  Pending, Correlator, CallRecord, without, id_key, scoped, learn_reply, is_response, replied,
  inbound, on_inbound,
}

lookup-without : (k : String) (map : List (String × Pending)) → lookup k (without k map) ≡ none
lookup-without k [] = refl
lookup-without k ((l, p) ∷ map) = elim (Bool-cases (str_eq l k)) [
  | inl e ↦ rw e (lookup-without k map)
  | inr e ↦ rw e (rw e (lookup-without k map))
]

module _ (r : Recognizers) where
  -- Learning keeps the requests and the count.
  record SameCalls (c d : Correlator) : Type 0 where
    pending : d.pending ≡ c.pending
    seq : d.seq ≡ c.seq

  replied_once :
      (v : Value) (now later : ℕ) (k : String) (c : Correlator) (o : Option Pending)
      → lookup k c.pending ≡ o
      → replied r v later k (lookup k (replied r v now k o c).1.pending) (replied r v now k o c).1
        ≡ (none, (replied r v now k o c).1)
  replied_once v now later k c none h = rw h refl
  replied_once v now later k c (some p) h =
      rw (lookup-without k (learn_reply r (get "result" v) p c).pending) refl

  inbound_once :
      (v : Value) (now later : ℕ) (scope id : String) (c : Correlator)
      → inbound r v later scope (some id) (inbound r v now scope (some id) c).1
        ≡ (none, (inbound r v now scope (some id) c).1)
  inbound_once v now later scope id c = elim (Bool-cases (is_response r v)) [
    | inl e ↦
        rw e (
          replied_once v now later (scoped r scope id) c (lookup (scoped r scope id) c.pending)
            refl)
    | inr e ↦ rw e refl
  ]

  -- A message with an id that was taken in is not taken in again: the second time there is no
  -- record, and nothing changes.
  pub on_inbound_once :
      (v : Value) (id scope : String) (now later : ℕ) (c : Correlator)
      → id_key r v ≡ some id
      → on_inbound r v later scope (on_inbound r v now scope c).1
        ≡ (none, (on_inbound r v now scope c).1)
  unfolding on_inbound
  on_inbound_once v id scope now later c h = rw h (inbound_once v now later scope id c)

  -- What a record holds for the tool that a request names: the name where it can be stored.
  abbrev pub IsLabelOf : Option String → Option String → Type 0
  IsLabelOf none label = label ≡ none
  IsLabelOf (some name) label =
      (valid_tool name ≡ true → label ≡ some name)
      × (valid_tool name ≡ false → label ≡ some "unlisted")

  -- The record of the request `v` that was sent at `sent` and answered at `now`
  pub record IsAnswer (v : Value) (c : Correlator) (requested : String) (sent now : ℕ)
      (answer : CallRecord) : Type 0 where
    pub seq : answer.seq ≡ suc c.seq
    pub method : answer.method ≡ requested
    pub label : IsLabelOf (and_then (and_then (get "params" v) (get "name")) as_str) answer.tool
    pub args : is_some answer.args ≡ is_some (and_then (get "params" v) (get "arguments"))
    pub latency : answer.latency_ms ≡ some (now - sent)
