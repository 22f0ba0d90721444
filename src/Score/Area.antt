-- ===== src/Score/Area.antt =====
-- `Area` of src/score.rs: the six areas of the standard.
use mcp_eval.Prelude.{
  ℕ, String, ◌≡◌, refl, Option, some, List, [], ◌∷◌, arith, str_eq, eq_iff, find,
}

pub data Area : Type 0 where
  protocol catalog context error_honesty : Area
  reliability coverage : Area

-- `Area::ALL`, in report order
unfoldable pub all_areas : List Area
all_areas = protocol ∷ catalog ∷ context ∷ error_honesty ∷ reliability ∷ coverage ∷ []

unfoldable pub as_str : Area → String
as_str protocol = "protocol"
as_str catalog = "catalog"
as_str context = "context"
as_str error_honesty = "error-honesty"
as_str reliability = "reliability"
as_str coverage = "coverage"

unfoldable pub from_label : String → Option Area
unfolding all_areas as_str
from_label label = find (λ x. str_eq (as_str x) label) all_areas

-- Every label reads back as the value that wrote it.
pub from_label-as_str : (x : Area) → from_label (as_str x) ≡ some x
unfolding from_label
from_label-as_str protocol = refl
from_label-as_str _ = refl

labels_sound :
    (xs : List Area) (label : String) (x : Area)
    → find (λ y. str_eq (as_str y) label) xs ≡ some x
    → as_str x ≡ label
labels_sound [] label x h = cc
labels_sound (y ∷ ys) label x h = ground (arith, eq_iff (as_str y) label, labels_sound ys label x)

-- A label that is read is the label of the value: no other text names it.
pub as_str-from_label : (label : String) (x : Area) → from_label label ≡ some x → as_str x ≡ label
as_str-from_label label x h = labels_sound all_areas label x (unfold from_label in h)

pub Area-discrete : Discrete Area
Area-discrete = hlevel

unfoldable pub weight : Area → ℕ
weight protocol = 15
weight catalog = 20
weight context = 15
weight error_honesty = 15
weight reliability = 20
weight coverage = 15
