-- ===== src/Mapper/Sets.antt =====
-- operator/mapper/dbaas.go: IsSameStringSet and the set that it builds.
pub mod Laws
pub mod Quotient
use provider_exoscale.Prelude.{
  ℕ, String, Bool, true, false, ◌&&◌, List, [], ◌∷◌, Option, none, some, ◌==◌, if◌then◌else◌,
  length,
}
use provider_exoscale.Prelude.Tests

-- The presence test of a map[string]struct{}, here its list of keys.
unfoldable pub contains_key : String → List String → Bool
contains_key s [] = false
contains_key s (x ∷ xs) = if x == s then true else contains_key s xs

-- m[i] = struct{}{}: a key that is there stays alone.
unfoldable pub insert_key : String → List String → List String
unfolding contains_key
insert_key s m = if contains_key s m then m else s ∷ m

-- The loop of `set`, over a map that is already filled.
unfoldable pub fill_set : List String → List String → List String
unfolding insert_key
fill_set m [] = m
fill_set m (i ∷ s) = fill_set (insert_key i m) s

unfoldable pub set : List String → List String
unfolding fill_set
set s = fill_set [] s

-- The loop over set1: every key is in set2.
unfoldable pub all_in : List String → List String → Bool
unfolding contains_key
all_in [] set2 = true
all_in (ai ∷ set1) set2 = if contains_key ai set2 then all_in set1 set2 else false

unfoldable pub is_same_string_set : List String → Option (List String) → Bool
unfolding set all_in
is_same_string_set a none = Tests.◌==◌ (length a) 0
is_same_string_set a (some b) =
    let set1 = set a in
    let set2 = set b in if Tests.◌==◌ (length set1) (length set2) then all_in set1 set2 else false
