-- ===== src/Json/Laws.antt =====
-- Laws of the maps of Json.antt.
use provider_exoscale.Prelude.{
  String, Bool, true, false, ◌≡◌, ◌≢◌, refl, none, some, ◌==◌, if◌then◌else◌, eq_iff, arith,
}
use provider_exoscale.Json.{Fields, end, field, Json, lookup, insert}

-- Whether the map has the key.
abbrev pub has_key : String → Fields → Bool
has_key k end = false
has_key k (field j v m) = if j == k then true else has_key k m

-- The keys of a Go map differ from one another.
abbrev pub IsMap : Fields → Type 0
IsMap end = Unit
IsMap (field k v m) = (has_key k m ≡ false) × IsMap m

pub lookup-insert :
    (k j : String) (v : Json) (m : Fields)
    → lookup j (insert k v m) ≡ (if k == j then some v else lookup j m)
unfolding lookup insert
lookup-insert k j v end = refl
lookup-insert k j v (field i w m) =
    ground (arith, eq_iff k j, eq_iff i k, eq_iff i j, lookup-insert k j v m)

pub has_key-insert :
    (k j : String) (v : Json) (m : Fields)
    → has_key j (insert k v m) ≡ (if k == j then true else has_key j m)
unfolding insert
has_key-insert k j v end = refl
has_key-insert k j v (field i w m) =
    ground (arith, eq_iff k j, eq_iff i k, eq_iff i j, has_key-insert k j v m)

pub insert-IsMap : (k : String) (v : Json) (m : Fields) → IsMap m → IsMap (insert k v m)
unfolding insert
insert-IsMap k v end h = (refl, tt)
insert-IsMap k v (field j w m) h =
    ground (arith, eq_iff j k, eq_iff k j, has_key-insert k j v m, insert-IsMap k v m)

pub lookup_present : (k : String) (m : Fields) → has_key k m ≡ true → lookup k m ≢ none
unfolding lookup
lookup_present k end h = cc
lookup_present k (field j v m) h = ground (arith, lookup_present k m)

pub lookup_missing : (k : String) (m : Fields) → has_key k m ≡ false → lookup k m ≡ none
unfolding lookup
lookup_missing k end h = refl
lookup_missing k (field j v m) h = ground (arith, lookup_missing k m)
