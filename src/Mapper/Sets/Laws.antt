-- ===== src/Mapper/Sets/Laws.antt =====
-- IsSameStringSet compares its arguments as sets.
use provider_exoscale.Prelude.{
  suc, ◌≤◌, String, Bool, true, false, ◌≡◌, ◌↔◌, refl, inl, inr, List, [], ◌∷◌, some, ◌==◌,
  if◌then◌else◌, eq_iff, eq_refl, sym, ◌∙◌, length, arith, Bool-cases,
}
use provider_exoscale.Mapper.Sets.{
  contains_key, insert_key, fill_set, set, all_in, is_same_string_set,
}

-- A list of keys in which none stands twice.
abbrev pub IsKeySet : List String → Type 0
IsKeySet [] = Unit
IsKeySet (x ∷ xs) = (contains_key x xs ≡ false) × IsKeySet xs

contains_key-insert_key :
    (s j : String) (m : List String)
    → contains_key j (insert_key s m) ≡ (if s == j then true else contains_key j m)
unfolding contains_key insert_key
contains_key-insert_key s j m = ground (arith, eq_iff s j)

insert_key-IsKeySet : (s : String) (m : List String) → IsKeySet m → IsKeySet (insert_key s m)
unfolding insert_key
insert_key-IsKeySet s m h = ground arith

contains_key-fill_set :
    (s : String) (m l : List String)
    → contains_key s (fill_set m l) ≡ (if contains_key s m then true else contains_key s l)
unfolding fill_set contains_key
contains_key-fill_set s m [] = ground arith
contains_key-fill_set s m (i ∷ l) =
    ground (arith, contains_key-fill_set s (insert_key i m) l, contains_key-insert_key i s m)

fill_set-IsKeySet : (m l : List String) → IsKeySet m → IsKeySet (fill_set m l)
unfolding fill_set
fill_set-IsKeySet m [] h = h
fill_set-IsKeySet m (i ∷ l) h = fill_set-IsKeySet (insert_key i m) l (insert_key-IsKeySet i m h)

-- The list without its first occurrence of the key.
remove_key : String → List String → List String
remove_key s [] = []
remove_key s (x ∷ xs) = if x == s then xs else x ∷ remove_key s xs

length-remove_key :
    (s : String) (m : List String)
    → contains_key s m ≡ true
    → length m ≡ suc (length (remove_key s m))
unfolding remove_key contains_key
length-remove_key s [] h = cc
length-remove_key s (x ∷ xs) h = ground (arith, length-remove_key s xs)

contains_key-remove_key :
    (s j : String) (m : List String)
    → (s == j) ≡ false
    → contains_key j (remove_key s m) ≡ contains_key j m
unfolding remove_key contains_key
contains_key-remove_key s j [] h = refl
contains_key-remove_key s j (x ∷ xs) h =
    ground (arith, contains_key-remove_key s j xs, eq_iff x s, eq_iff x j, eq_iff s j)

all_in-remove_key :
    (s : String) (xs ys : List String)
    → contains_key s xs ≡ false
    → all_in xs ys ≡ true
    → all_in xs (remove_key s ys) ≡ true
unfolding all_in contains_key
all_in-remove_key s [] ys n h = refl
all_in-remove_key s (x ∷ xs) ys n h =
    ground
      (arith, all_in-remove_key s xs ys, contains_key-remove_key s x ys, eq_iff x s, eq_iff s x)

-- The pigeonhole: a set that is inside another is no longer than it.
all_in-length : (xs ys : List String) → IsKeySet xs → all_in xs ys ≡ true → length xs ≤ length ys
unfolding all_in
all_in-length [] ys k h = omega arith
all_in-length (x ∷ xs) ys k h = elim (Bool-cases (contains_key x ys)) [
  | inl here ↦ omega (
    arith,
    length-remove_key x ys here,
    all_in-length xs (remove_key x ys) k.1 (all_in-remove_key x xs ys k.0 (ground arith)),
  )
  | inr gone ↦ cc (rw gone at h)
]

contains_key_of_all_in :
    (s : String) (xs ys : List String)
    → all_in xs ys ≡ true
    → contains_key s xs ≡ true
    → contains_key s ys ≡ true
unfolding all_in contains_key
contains_key_of_all_in s [] ys h c = cc
contains_key_of_all_in s (x ∷ xs) ys h c =
    ground (arith, contains_key_of_all_in s xs ys, eq_iff x s)

-- A set that is inside another of the same length holds all of it.
pub all_in_back :
    (s : String) (xs ys : List String)
    → IsKeySet xs
    → length xs ≡ length ys
    → all_in xs ys ≡ true
    → contains_key s ys ≡ true
    → contains_key s xs ≡ true
all_in_back s xs ys k len h c = elim (Bool-cases (contains_key s xs)) [
  | inl here ↦ here
  | inr gone ↦ absurd (
      omega (
        arith,
        length-remove_key s ys c,
        all_in-length xs (remove_key s ys) k (all_in-remove_key s xs ys gone h),
      ))
]

all_in_of_subset :
    (xs ys : List String)
    → ((s : String) → contains_key s xs ≡ true → contains_key s ys ≡ true)
    → all_in xs ys ≡ true
unfolding all_in contains_key
all_in_of_subset [] ys h = refl
all_in_of_subset (x ∷ xs) ys h =
    ground (arith, h x, eq_refl x, all_in_of_subset xs ys (λ s c. h s (ground arith)))

set-IsKeySet : (l : List String) → IsKeySet (set l)
unfolding set
set-IsKeySet l = fill_set-IsKeySet [] l tt

contains_key-set : (s : String) (l : List String) → contains_key s (set l) ≡ contains_key s l
unfolding set contains_key
contains_key-set s l = ground (arith, contains_key-fill_set s [] l)

Bool-eq_of_implications : (a b : Bool) → (a ≡ true → b ≡ true) → (b ≡ true → a ≡ true) → a ≡ b
Bool-eq_of_implications true true f g = refl
Bool-eq_of_implications true false f g = sym (f refl)
Bool-eq_of_implications false true f g = g refl
Bool-eq_of_implications false false f g = refl

same_members :
    (a b : List String)
    → is_same_string_set a (some b) ≡ true
    → (s : String) → contains_key s a ≡ contains_key s b
unfolding is_same_string_set
same_members a b h s =
    let len : length (set a) ≡ length (set b) = ground arith in
    let into : all_in (set a) (set b) ≡ true = ground arith in
    rw (← contains_key-set s a, ← contains_key-set s b)
      (Bool-eq_of_implications _ _ (contains_key_of_all_in s (set a) (set b) into)
        (all_in_back s (set a) (set b) (set-IsKeySet a) len into))

same_set :
    (a b : List String)
    → ((s : String) → contains_key s a ≡ contains_key s b)
    → is_same_string_set a (some b) ≡ true
unfolding is_same_string_set
same_set a b h =
    let into : all_in (set a) (set b) ≡ true =
      all_in_of_subset (set a) (set b)
        (λ s c. contains_key-set s b ∙ sym (h s) ∙ sym (contains_key-set s a) ∙ c) in
    let back : all_in (set b) (set a) ≡ true =
      all_in_of_subset (set b) (set a)
        (λ s c. contains_key-set s a ∙ h s ∙ sym (contains_key-set s b) ∙ c) in
    ground (
      arith,
      all_in-length (set a) (set b) (set-IsKeySet a) into,
      all_in-length (set b) (set a) (set-IsKeySet b) back,
    )

-- IsSameStringSet answers true for two slices exactly when they hold the same strings, whatever
-- their order and however often a string stands in them.
pub is_same_string_set_iff :
    (a b : List String)
    → (is_same_string_set a (some b) ≡ true) ↔ ((s : String) → contains_key s a ≡ contains_key s b)
is_same_string_set_iff a b = (same_members a b, same_set a b)
