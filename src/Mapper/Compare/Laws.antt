-- ===== src/Mapper/Compare/Laws.antt =====
-- When CompareSettings answers true, and when it panics.
use provider_exoscale.Prelude.{
  String, Bool, true, false, ◌||◌, ◌≡◌, refl, some, ok, panic, uncomparable, if◌then◌else◌, eq_iff,
  eq_refl, arith,
}
use provider_exoscale.Prelude.Int.{int_eq_iff}
use provider_exoscale.Json.{
  Json, null, bool, int, float, str, arr, obj, Fields, end, field, lookup, index, iface_eq,
}
use provider_exoscale.Json.Laws.{has_key, IsMap}
use provider_exoscale.Mapper.Compare.{compare_each, compare_maps}

-- A value on which `==` panics when it meets its like.
abbrev pub is_nested : Json → Bool
is_nested (arr xs) = true
is_nested (obj m) = true
is_nested _ = false

abbrev pub has_nested : Fields → Bool
has_nested end = false
has_nested (field k v m) = is_nested v || has_nested m

iface_eq_refl : (v : Json) → iface_eq v v ≡ (if is_nested v then panic uncomparable else ok true)
unfolding iface_eq
iface_eq_refl null = refl
iface_eq_refl (bool b) = ground arith
iface_eq_refl (int n) = ground (arith, int_eq_iff n n)
iface_eq_refl (float x) = ground arith
iface_eq_refl (str s) = rw (eq_refl s)
iface_eq_refl (arr xs) = refl
iface_eq_refl (obj m) = refl

-- The entries of `sa` stand in `sb`.
abbrev Within : Fields → Fields → Type 0
Within end sb = Unit
Within (field k v sa) sb = (lookup k sb ≡ some v) × Within sa sb

Within-field :
    (k : String) (v : Json) (sa sb : Fields)
    → has_key k sa ≡ false
    → Within sa sb
    → Within sa (field k v sb)
unfolding lookup
Within-field k v end sb n h = tt
Within-field k v (field j w sa) sb n (e, h) =
    (ground (arith, eq_iff k j, eq_iff j k), Within-field k v sa sb (ground arith) h)

Within-refl : (sa : Fields) → IsMap sa → Within sa sa
unfolding lookup
Within-refl end h = tt
Within-refl (field k v sa) h = (rw (eq_refl k), Within-field k v sa sa h.0 (Within-refl sa h.1))

compare_each-Within :
    (sa sb : Fields)
    → Within sa sb
    → compare_each sa sb ≡ (if has_nested sa then panic uncomparable else ok true)
unfolding compare_each index
compare_each-Within end sb h = refl
compare_each-Within (field k v sa) sb (e, h) =
    rw (e, index) (rw (iface_eq_refl v) (ground (arith, compare_each-Within sa sb h)))

-- Settings compared with themselves: equal if no value is an array or an object, and a run-time
-- panic if some value is one.
pub compare_maps_refl :
    (sa : Fields)
    → IsMap sa
    → compare_maps sa sa ≡ (if has_nested sa then panic uncomparable else ok true)
unfolding compare_maps
compare_maps_refl sa h = ground (arith, compare_each-Within sa sa (Within-refl sa h))
