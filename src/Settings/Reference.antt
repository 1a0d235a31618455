-- ===== src/Settings/Reference.antt =====
-- SetDefaults against a reading of the schema that goes down one path and changes no map.
use provider_exoscale.Prelude.{
  String, Bool, true, false, ◌≡◌, refl, ap, ◌∙◌, List, [], ◌∷◌, Option, none, some, ◌==◌,
  if◌then◌else◌, eq_iff, eq_refl, arith, Bool-cases, Option-cases, inl, inr,
}
use mathlib.Core.Option.{some-injective}
use provider_exoscale.Json.{Json, null, bool, int, float, str, arr, obj, Fields, end, lookup}
use provider_exoscale.Json.Laws.{lookup-insert}
use provider_exoscale.Settings.{
  Schema, schema, Schemas, none_left, entry, has_default, submap, set_leaf, set_entry,
  set_properties, find_schema,
}
use provider_exoscale.Settings.Laws.{
  set_nested, distinct, distinct_in, lookup_unnamed, set_entry_other, last_entry,
}
use provider_exoscale.Settings.Idempotent.{unchanged_properties}

-- The value at a key after its round, from the value before.
abbrev or_default : Json → Option Json → Option Json
or_default d (some v) = some v
or_default d none = if has_default d then some d else none

abbrev changed_to : Option Json → Fields × Bool → Option Json
changed_to before r = if r.1 then some (obj r.0) else before

abbrev nested_after : (Fields → Fields × Bool) → Option Json → Option Fields → Option Json
nested_after f before none = before
nested_after f before (some m) = changed_to before (f m)

abbrev value_after : Schema → Option Json → Option Json
value_after (schema d none_left) before = or_default d before
value_after (schema d (entry k s ps)) before =
    nested_after (set_properties (entry k s ps)) before (submap before)

abbrev entry_after : Option Schema → Option Json → Option Json
entry_after none before = before
entry_after (some s) before = value_after s before

lookup-set_leaf :
    (d : Json) (k : String) (m : Fields) → lookup k (set_leaf d k m).0 ≡ or_default d (lookup k m)
lookup-set_leaf d k m = elim (Option-cases (lookup k m)) [
  | inl gone ↦ ground (arith, lookup-insert k k d m, eq_refl k)
  | inr (v, here) ↦ ground arith
]

lookup-set_nested :
    (k : String) (m : Fields) (f : Fields → Fields × Bool) (o : Option Fields)
    → lookup k (set_nested k m f o).0 ≡ nested_after f (lookup k m) o
lookup-set_nested k m f none = refl
lookup-set_nested k m f (some sub) = elim (Bool-cases (f sub).1) [
  | inl changed ↦ rw changed (rw (lookup-insert k k (obj (f sub).0) m) (rw (eq_refl k) refl))
  | inr kept ↦ rw kept refl
]

lookup-set_entry :
    (s : Schema) (k : String) (m : Fields)
    → lookup k (set_entry s k m).0 ≡ value_after s (lookup k m)
unfolding set_entry
lookup-set_entry (schema d none_left) k m = lookup-set_leaf d k m
lookup-set_entry (schema d (entry j s ps)) k m =
    lookup-set_nested k m (set_properties (entry j s ps)) (submap (lookup k m))

-- The value at a key after all rounds depends on the schema of that key and the value before only.
lookup-set_properties :
    (ps : Schemas) (k : String) (m : Fields)
    → distinct ps ≡ true
    → lookup k (set_properties ps m).0 ≡ entry_after (find_schema k ps) (lookup k m)
unfolding set_properties find_schema distinct
lookup-set_properties none_left k m h = refl
lookup-set_properties (entry key s ps) k m h = elim (Bool-cases (key == k)) [
  | inl same ↦
      let p : key ≡ k = (eq_iff key k).0 same in
      lookup_unnamed ps k (set_entry s key m).0 (rw p at (last_entry key s ps h))
      ∙ rw (same, p) (lookup-set_entry s k m)
  | inr other ↦
      lookup-set_properties ps k (set_entry s key m).0 (ground arith)
      ∙ rw (other, set_entry_other s key k m other) refl
]

-- The value at the end of a path of keys.
abbrev pub inside : String → Option Json → Option Json
inside k (some (obj m)) = lookup k m
inside k _ = none

unfoldable pub descend : Option Json → List String → Option Json
descend v [] = v
descend v (k ∷ path) = descend (inside k v) path

-- A value that is no object.
abbrev pub scalar : Option Json → Option Json
scalar (some (obj m)) = none
scalar v = v

-- The reference: what stands at the end of a path below a value, where the schema of the value is
-- given. A value that is there stays; one that is missing is the default of its schema, if the schema
-- has one and no properties; below an object, or a missing one, the properties go on.
unfoldable pub read_default : Option Schema → Option Json → List String → Option Json
read_default none before path = descend before path
read_default (some (schema d none_left)) before path = descend (or_default d before) path
read_default (some (schema d (entry j s ps))) before [] = before
read_default (some (schema d (entry j s ps))) before (k ∷ path) = elim (submap before) [
  | none ↦ none
  | some m ↦ read_default (find_schema k (entry j s ps)) (lookup k m) path
]

descend-none : (path : List String) → descend none path ≡ none
unfolding descend
descend-none [] = refl
descend-none (k ∷ path) = descend-none path

abbrev distinct_found : Option Schema → Bool
distinct_found none = true
distinct_found (some s) = distinct_in s

distinct-find_schema :
    (k : String) (ps : Schemas) → distinct ps ≡ true → distinct_found (find_schema k ps) ≡ true
unfolding find_schema distinct
distinct-find_schema k none_left h = refl
distinct-find_schema k (entry j s ps) h = elim (Bool-cases (j == k)) [
  | inl same ↦ rw same (ground arith)
  | inr other ↦ rw other (distinct-find_schema k ps (ground arith))
]

-- What an object, or a missing one, has at a key after the defaults have gone into it.
inside-submap :
    (k : String) (before : Option Json) (m : Fields)
    → submap before ≡ some m
    → inside k before ≡ lookup k m
unfolding lookup
inside-submap k none m h = ap (lookup k) (some-injective end m h)
inside-submap k (some (obj n)) m h = ap (lookup k) (some-injective n m h)
inside-submap k (some null) m h = cc
inside-submap k (some (bool b)) m h = cc
inside-submap k (some (int n)) m h = cc
inside-submap k (some (float x)) m h = cc
inside-submap k (some (str s)) m h = cc
inside-submap k (some (arr xs)) m h = cc

inside-nested_after :
    (ps : Schemas) (k : String) (before : Option Json) (m : Fields)
    → submap before ≡ some m
    → inside k (nested_after (set_properties ps) before (some m)) ≡ lookup k (set_properties ps m).0
inside-nested_after ps k before m h = elim (Bool-cases (set_properties ps m).1) [
  | inl changed ↦ rw changed refl
  | inr kept ↦ rw (kept, unchanged_properties ps m kept) (inside-submap k before m h)
]

scalar-changed_to :
    (before : Option Json) (r : Fields × Bool)
    → scalar before ≡ none
    → scalar (changed_to before r) ≡ none
scalar-changed_to before (m, true) h = refl
scalar-changed_to before (m, false) h = h

scalar-nested_after :
    (f : Fields → Fields × Bool) (before : Option Json)
    → scalar (nested_after f before (submap before)) ≡ scalar before
scalar-nested_after f none = scalar-changed_to none (f end) refl
scalar-nested_after f (some (obj m)) = scalar-changed_to (some (obj m)) (f m) refl
scalar-nested_after f (some null) = refl
scalar-nested_after f (some (bool b)) = refl
scalar-nested_after f (some (int n)) = refl
scalar-nested_after f (some (float x)) = refl
scalar-nested_after f (some (str s)) = refl
scalar-nested_after f (some (arr xs)) = refl

inside_other : (k : String) (before : Option Json) → submap before ≡ none → inside k before ≡ none
inside_other k none h = cc
inside_other k (some (obj n)) h = cc
inside_other k (some null) h = refl
inside_other k (some (bool b)) h = refl
inside_other k (some (int n)) h = refl
inside_other k (some (float x)) h = refl
inside_other k (some (str s)) h = refl
inside_other k (some (arr xs)) h = refl

read_below :
    (ps : Schemas) (k : String) (path : List String) (before : Option Json) (o : Option Fields)
    → submap before ≡ o
    → ((m : Fields)
        → scalar (descend (lookup k (set_properties ps m).0) path)
          ≡ scalar (read_default (find_schema k ps) (lookup k m) path))
    → scalar (descend (inside k (nested_after (set_properties ps) before o)) path)
      ≡ scalar (elim o [ none ↦ none | some m ↦ read_default (find_schema k ps) (lookup k m) path ])
read_below ps k path before none e below =
    ap (λ v. scalar (descend v path)) (inside_other k before e) ∙ ap scalar (descend-none path)
read_below ps k path before (some m) e below =
    ap (λ v. scalar (descend v path)) (inside-nested_after ps k before m e) ∙ below m

read_after :
    (path : List String) (s : Option Schema) (before : Option Json)
    → distinct_found s ≡ true
    → scalar (descend (entry_after s before) path) ≡ scalar (read_default s before path)
unfolding descend read_default distinct
read_after path none before h = refl
read_after path (some (schema d none_left)) before h = refl
read_after [] (some (schema d (entry j s ps))) before h =
    scalar-nested_after (set_properties (entry j s ps)) before
read_after (k ∷ path) (some (schema d (entry j s ps))) before h =
    read_below (entry j s ps) k path before (submap before) refl (λ m.
      ap (λ v. scalar (descend v path)) (lookup-set_properties (entry j s ps) k m h)
      ∙ read_after path (find_schema k (entry j s ps)) (lookup k m)
          (distinct-find_schema k (entry j s ps) h))

-- The loop of setDefaults refines the reference: for a schema in which no key stands twice and along
-- every path of keys, what the map with its defaults has at the end of the path, if it is no object, is
-- what the reference reads off the schema and the input, and the reference finds an object or nothing
-- where the map has an object or nothing.
pub set_properties_reference :
    (ps : Schemas) (m : Fields) (k : String) (path : List String)
    → distinct ps ≡ true
    → scalar (descend (lookup k (set_properties ps m).0) path)
      ≡ scalar (read_default (find_schema k ps) (lookup k m) path)
set_properties_reference ps m k path h =
    ap (λ v. scalar (descend v path)) (lookup-set_properties ps k m h)
    ∙ read_after path (find_schema k ps) (lookup k m) (distinct-find_schema k ps h)
