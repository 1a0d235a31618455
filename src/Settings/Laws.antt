-- ===== src/Settings/Laws.antt =====
-- What setDefaults keeps, and what it fills in.
use provider_exoscale.Prelude.{
  String, Bool, true, false, ◌&&◌, ◌≡◌, refl, ap, ◌∙◌, not, Bool-cases, inl, inr, Option, none,
  some, ◌==◌, eq_iff, eq_refl, arith, if◌then◌else◌,
}
use provider_exoscale.Json.{Json, null, bool, int, float, str, arr, obj, Fields, lookup}
use mathlib.Core.Option.{some-injective}
use provider_exoscale.Json.Laws.{lookup-insert}
use provider_exoscale.Settings.{
  Schema, schema, Schemas, none_left, entry, has_default, submap, set_leaf, store_submap, set_entry,
  set_properties, find_schema,
}

abbrev pub has_entry : String → Schemas → Bool
has_entry k none_left = false
has_entry k (entry j s ps) = if j == k then true else has_entry k ps

abbrev pub is_object : Json → Bool
is_object (obj m) = true
is_object _ = false

-- The nested case of a round, over what it does with the nested map.
abbrev pub set_nested : String → Fields → (Fields → Fields × Bool) → Option Fields → Fields × Bool
set_nested key m f none = (m, false)
set_nested key m f (some sub) = store_submap key m (f sub)

store_submap_other :
    (key k : String) (m : Fields) (r : Fields × Bool)
    → (key == k) ≡ false
    → lookup k (store_submap key m r).0 ≡ lookup k m
store_submap_other key k m (sub, true) h = ground (arith, lookup-insert key k (obj sub) m)
store_submap_other key k m (sub, false) h = refl

nested_other :
    (key k : String) (m : Fields) (f : Fields → Fields × Bool) (o : Option Fields)
    → (key == k) ≡ false
    → lookup k (set_nested key m f o).0 ≡ lookup k m
nested_other key k m f none h = refl
nested_other key k m f (some sub) h = store_submap_other key k m (f sub) h

-- A round touches its own key only.
pub set_entry_other :
    (s : Schema) (key k : String) (m : Fields)
    → (key == k) ≡ false
    → lookup k (set_entry s key m).0 ≡ lookup k m
unfolding set_entry
set_entry_other (schema d none_left) key k m h = ground (arith, lookup-insert key k d m)
set_entry_other (schema d (entry j s ps)) key k m h =
    nested_other key k m (set_properties (entry j s ps)) (submap (lookup key m)) h

-- A key that the schema does not name keeps its value, or stays missing.
pub lookup_unnamed :
    (ps : Schemas) (k : String) (m : Fields)
    → has_entry k ps ≡ false
    → lookup k (set_properties ps m).0 ≡ lookup k m
unfolding set_properties
lookup_unnamed none_left k m h = refl
lookup_unnamed (entry key s ps) k m h =
    ground (arith, lookup_unnamed ps k (set_entry s key m).0, set_entry_other s key k m)

set_leaf_kept :
    (d : Json) (key : String) (m : Fields) {v : Json}
    → lookup key m ≡ some v
    → set_leaf d key m ≡ (m, false)
set_leaf_kept d key m e = ground arith

submap-none : (v : Json) → is_object v ≡ false → submap (some v) ≡ none
submap-none (obj m) h = cc
submap-none null h = refl
submap-none (bool b) h = refl
submap-none (int n) h = refl
submap-none (float x) h = refl
submap-none (str s) h = refl
submap-none (arr xs) h = refl

set_entry_kept :
    (s : Schema) (k : String) (m : Fields) {v : Json}
    → lookup k m ≡ some v
    → is_object v ≡ false
    → set_entry s k m ≡ (m, false)
unfolding set_entry
set_entry_kept (schema d none_left) k m e h = set_leaf_kept d k m e
set_entry_kept (schema d (entry j s ps)) k m {v} e h =
    ap (set_nested k m (set_properties (entry j s ps))) (ap submap e ∙ submap-none v h)

-- A value that the input sets is never replaced, unless it is an object, into which the defaults
-- of a nested schema may go.
pub lookup_kept :
    (ps : Schemas) (k : String) (m : Fields) {v : Json}
    → lookup k m ≡ some v
    → is_object v ≡ false
    → lookup k (set_properties ps m).0 ≡ some v
unfolding set_properties
lookup_kept none_left k m e h = e
lookup_kept (entry key s ps) k m e h = elim (Bool-cases (key == k)) [
  | inl same ↦
      lookup_kept ps k (set_entry s key m).0
        (rw ((eq_iff key k).0 same) (rw (set_entry_kept s k m e h) e)) h
  | inr other ↦ lookup_kept ps k (set_entry s key m).0 (set_entry_other s key k m other ∙ e) h
]

-- No key stands twice, at any depth.
unfoldable mutual
  pub distinct : Schemas → Bool
  distinct none_left = true
  distinct (entry k s ps) = distinct_in s && (not (has_entry k ps) && distinct ps)

  pub distinct_in : Schema → Bool
  distinct_in (schema d ps) = distinct ps

set_leaf_missing :
    (d : Json) (k : String) (m : Fields)
    → lookup k m ≡ none
    → has_default d ≡ true
    → lookup k (set_leaf d k m).0 ≡ some d
set_leaf_missing d k m e h = ground (arith, lookup-insert k k d m, eq_refl k)

set_entry_missing :
    (s : Schema) (k : String) (d : Json) (m : Fields)
    → s ≡ schema d none_left
    → lookup k m ≡ none
    → has_default d ≡ true
    → lookup k (set_entry s k m).0 ≡ some d
unfolding set_entry
set_entry_missing s k d m p e h = rw p (set_leaf_missing d k m e h)

pub last_entry :
    (key : String) (s : Schema) (ps : Schemas)
    → distinct (entry key s ps) ≡ true
    → has_entry key ps ≡ false
unfolding distinct
last_entry key s ps h = ground arith

-- A key that the input lacks gets the default of its schema, where the schema has one and no
-- properties of its own.
pub lookup_filled :
    (ps : Schemas) (k : String) (d : Json) (m : Fields)
    → distinct ps ≡ true
    → find_schema k ps ≡ some (schema d none_left)
    → has_default d ≡ true
    → lookup k m ≡ none
    → lookup k (set_properties ps m).0 ≡ some d
unfolding set_properties find_schema distinct
lookup_filled none_left k d m ok f h e = cc
lookup_filled (entry key s ps) k d m ok f h e = elim (Bool-cases (key == k)) [
  | inl same ↦
      let p : key ≡ k = (eq_iff key k).0 same in
      let leaf : s ≡ schema d none_left = some-injective s (schema d none_left) (rw same at f) in
      lookup_unnamed ps k (set_entry s key m).0 (rw p at (last_entry key s ps ok))
      ∙ rw p (set_entry_missing s k d m leaf e h)
  | inr other ↦
      lookup_filled ps k d (set_entry s key m).0 (ground arith) (rw other at f) h
        (set_entry_other s key k m other ∙ e)
]
