-- ===== src/Mapper/Compare/Sound.antt =====
-- CompareSettings against equality of maps.
use provider_exoscale.Prelude.{
  suc, String, Bool, true, false, ◌||◌, ◌≡◌, ◌≢◌, refl, sym, ◌∙◌, ap, inl, inr, none, some, ◌==◌,
  ok, if◌then◌else◌, eq_iff, arith, Bool-cases, Option-cases, Option, >>=-eq-ok, List, [], ◌∷◌,
  length, Result,
}
use mathlib.Core.Bool.{false≢true}
use provider_exoscale.Prelude.Tests
use provider_exoscale.Json.{Json, null, Fields, end, field, lookup, index, size, iface_eq}
use provider_exoscale.Json.Laws.{has_key, IsMap, lookup_missing}
use provider_exoscale.Mapper.Sets.{contains_key, all_in}
use provider_exoscale.Mapper.Sets.Laws.{IsKeySet, all_in_back}
use provider_exoscale.Mapper.Compare.{compare_each, compare_maps}

abbrev pub is_null : Json → Bool
is_null null = true
is_null _ = false

abbrev pub has_null : Fields → Bool
has_null end = false
has_null (field k v m) = is_null v || has_null m

-- Both maps lack the key, or `==` finds their values equal.
abbrev pub SameEntry : Option Json → Option Json → Type 0
SameEntry none none = Unit
SameEntry (some v) (some w) = iface_eq w v ≡ ok true
SameEntry _ _ = ⊥

keys : Fields → List String
keys end = []
keys (field k v m) = k ∷ keys m

contains_key-keys : (s : String) (m : Fields) → contains_key s (keys m) ≡ has_key s m
unfolding keys contains_key
contains_key-keys s end = refl
contains_key-keys s (field k v m) = rw (contains_key-keys s m)

keys-IsKeySet : (m : Fields) → IsMap m → IsKeySet (keys m)
unfolding keys
keys-IsKeySet end h = tt
keys-IsKeySet (field k v m) h = (contains_key-keys k m ∙ h.0, keys-IsKeySet m h.1)

length-keys : (m : Fields) → length (keys m) ≡ size m
unfolding keys size
length-keys end = refl
length-keys (field k v m) = ap suc (length-keys m)

-- Only null equals the nil that a missing key reads as.
iface_eq-null : (v : Json) → is_null v ≡ false → iface_eq null v ≢ ok true
unfolding iface_eq
iface_eq-null null h e = cc
iface_eq-null _ h e = cc

head_present :
    (k : String) (v : Json) (sb : Fields)
    → is_null v ≡ false
    → iface_eq (index k sb) v ≡ ok true
    → (w : Json) × (lookup k sb ≡ some w) × (iface_eq w v ≡ ok true)
unfolding index
head_present k v sb n e = elim (Option-cases (lookup k sb)) [
  | inl gone ↦ absurd (iface_eq-null v n (rw (gone, index) at e))
  | inr (w, here) ↦ (w, here, rw (here, index) at e)
]

passed :
    (b : Bool) (r : Result Bool)
    → (if b then r else ok false) ≡ ok true
    → (b ≡ true) × (r ≡ ok true)
passed b r h = ground arith

-- What the loop has checked of each entry.
abbrev Checked : Fields → Fields → Type 0
Checked end sb = Unit
Checked (field k v sa) sb =
    ((w : Json) × (lookup k sb ≡ some w) × (iface_eq w v ≡ ok true)) × Checked sa sb

compare_each-Checked :
    (sa sb : Fields) → has_null sa ≡ false → compare_each sa sb ≡ ok true → Checked sa sb
unfolding compare_each
compare_each-Checked end sb n e = tt
compare_each-Checked (field k v sa) sb n e =
    let (same, here, later) = >>=-eq-ok (iface_eq (index k sb) v) _ e in
    let (yes_same, rest) = passed same _ later in
    (
      head_present k v sb (ground arith) (here ∙ ap ok yes_same),
      compare_each-Checked sa sb (ground arith) rest,
    )

Checked-all_in : (sa sb : Fields) → Checked sa sb → all_in (keys sa) (keys sb) ≡ true
unfolding keys all_in
Checked-all_in end sb h = refl
Checked-all_in (field k v sa) sb h =
    ground (arith, Checked-all_in sa sb h.1, contains_key-keys k sb, lookup_missing k sb)

Checked-lookup :
    (k : String) (sa sb : Fields)
    → Checked sa sb
    → has_key k sa ≡ true
    → SameEntry (lookup k sa) (lookup k sb)
unfolding lookup
Checked-lookup k end sb h e = cc
Checked-lookup k (field j v sa) sb ((w, here, same), h) e = elim (Bool-cases (j == k)) [
  | inl eq ↦ rw (eq, ← (eq_iff j k).0 eq, here) same
  | inr ne ↦ rw ne (Checked-lookup k sa sb h (rw ne at e))
]

-- A key of the second map only cannot be, as both maps have the same number of keys.
absent :
    (k : String) (sa sb : Fields)
    → IsMap sa
    → size sa ≡ size sb
    → Checked sa sb
    → has_key k sa ≡ false
    → has_key k sb ≡ false
absent k sa sb ma len h gone = elim (Bool-cases (has_key k sb)) [
  | inl here ↦ absurd (
      false≢true (
        sym (contains_key-keys k sa ∙ gone)
        ∙ all_in_back k (keys sa) (keys sb) (keys-IsKeySet sa ma)
            (length-keys sa ∙ len ∙ sym (length-keys sb)) (Checked-all_in sa sb h)
            (contains_key-keys k sb ∙ here)))
  | inr ne ↦ ne
]

-- Where CompareSettings answers true and no value of the first map is null, the two maps have the
-- same keys and `==` finds their values equal at each of them.
pub compare_maps_sound :
    (sa sb : Fields)
    → IsMap sa
    → IsMap sb
    → has_null sa ≡ false
    → compare_maps sa sb ≡ ok true
    → (k : String) → SameEntry (lookup k sa) (lookup k sb)
unfolding compare_maps
compare_maps_sound sa sb ma mb n e k =
    let (len, each) = passed (Tests.◌==◌ (size sa) (size sb)) _ e in
    let checked = compare_each-Checked sa sb n each in
    elim (Bool-cases (has_key k sa)) [
      | inl here ↦ Checked-lookup k sa sb checked here
      | inr gone ↦
          rw
            (
              lookup_missing k sa gone,
              lookup_missing k sb (absent k sa sb ma (ground arith) checked gone),
            )
            tt
    ]

-- A null setting reads like a missing one: two maps of one entry each, under different keys, count
-- as the same settings if the first holds null.
pub null_matches_missing :
    (k j : String) (w : Json)
    → k ≢ j
    → (compare_maps (field k null end) (field j w end) ≡ ok true)
      × (lookup k (field j w end) ≡ none)
unfolding compare_maps compare_each index lookup iface_eq size
null_matches_missing k j w h = ground (arith, eq_iff j k)
