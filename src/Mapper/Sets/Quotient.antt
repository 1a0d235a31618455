-- ===== src/Mapper/Sets/Quotient.antt =====
-- IsSameStringSet decides equality of lists up to order and repetition.
use mathlib.Core.Quot
use mathlib.Core.Quot.{Quot, Quot-set}
use provider_exoscale.Prelude.{String, Bool, true, ◌≡◌, ◌↔◌, ap, List, some}
use provider_exoscale.Mapper.Sets.{contains_key, is_same_string_set}
use provider_exoscale.Mapper.Sets.Laws.{is_same_string_set_iff}

abbrev pub SameMembers : List String → List String → Type 0
SameMembers a b = (s : String) → contains_key s a ≡ contains_key s b

-- Lists of texts without their order and their repetitions.
abbrev pub StringSet : Type 0
StringSet = Quot SameMembers

abbrev pub of_list : List String → StringSet
of_list = Quot.mk

member : String → StringSet → Bool
member s = Quot.lift (hlevel) (contains_key s) (λ a b h. h s)

exact : (a b : List String) → of_list a ≡ of_list b → SameMembers a b
unfolding member
exact a b e s = ap (member s) e

-- IsSameStringSet answers true for two slices exactly if they are equal as sets: in the quotient of
-- the lists by having the same strings in them, in whatever order and however often.
pub is_same_string_set-of_list :
    (a b : List String) → (is_same_string_set a (some b) ≡ true) ↔ (of_list a ≡ of_list b)
is_same_string_set-of_list a b = (
  (λ h. Quot.sound ((is_same_string_set_iff a b).0 h)),
  (λ e. (is_same_string_set_iff a b).1 (exact a b e)),
)
