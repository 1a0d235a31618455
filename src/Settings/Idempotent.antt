-- ===== src/Settings/Idempotent.antt =====
-- Setting defaults a second time changes nothing.
use provider_exoscale.Prelude.{
  String, Bool, true, false, not, ◌&&◌, ◌≡◌, refl, Option, none, some, eq_refl, arith, Bool-cases,
  Option-cases, inl, inr,
}
use provider_exoscale.Json.{Json, Fields, obj, lookup}
use provider_exoscale.Json.Laws.{lookup-insert}
use provider_exoscale.Settings.{
  Schema, schema, Schemas, none_left, entry, has_default, submap, set_leaf, set_entry,
  set_properties,
}
use provider_exoscale.Settings.Laws.{set_nested, distinct, distinct_in, lookup_unnamed, last_entry}

abbrev leaf_settled : Json → Option Json → Bool
leaf_settled d none = not (has_default d)
leaf_settled d (some v) = true

abbrev when_some : (Fields → Bool) → Option Fields → Bool
when_some p none = true
when_some p (some m) = p m

-- Whether the map, or the value at a key, needs no default any more.
mutual
  settled : Schemas → Fields → Bool
  settled none_left m = true
  settled (entry k s ps) m = settled_at s (lookup k m) && settled ps m

  settled_at : Schema → Option Json → Bool
  settled_at (schema d none_left) v = leaf_settled d v
  settled_at (schema d (entry k s ps)) v = when_some (settled (entry k s ps)) (submap v)

set_leaf_settled :
    (d : Json) (key : String) (m : Fields)
    → leaf_settled d (lookup key m) ≡ true
    → set_leaf d key m ≡ (m, false)
set_leaf_settled d key m h = ground arith

set_nested_settled :
    (key : String) (m : Fields) (f : Fields → Fields × Bool) (p : Fields → Bool) (o : Option Fields)
    → ((sub : Fields) → p sub ≡ true → f sub ≡ (sub, false))
    → when_some p o ≡ true
    → set_nested key m f o ≡ (m, false)
set_nested_settled key m f p none keep h = refl
set_nested_settled key m f p (some sub) keep h = rw (keep sub h)

unchanged_nested :
    (key : String) (m : Fields) (f : Fields → Fields × Bool) (o : Option Fields)
    → (set_nested key m f o).1 ≡ false
    → (set_nested key m f o).0 ≡ m
unchanged_nested key m f none h = refl
unchanged_nested key m f (some sub) h = ground arith

-- A settled map is left as it is.
mutual
  unfolding set_properties settled

  keep_entry :
      (s : Schema) (key : String) (m : Fields)
      → settled_at s (lookup key m) ≡ true
      → set_entry s key m ≡ (m, false)
  keep_entry (schema d none_left) key m h = set_leaf_settled d key m h
  keep_entry (schema d (entry k s ps)) key m h =
      set_nested_settled key m (set_properties (entry k s ps)) (settled (entry k s ps))
        (submap (lookup key m)) (λ sub e. keep_properties (entry k s ps) sub e) h

  keep_properties :
      (ps : Schemas) (m : Fields) → settled ps m ≡ true → set_properties ps m ≡ (m, false)
  keep_properties none_left m h = refl
  keep_properties (entry k s ps) m h = ground (arith, keep_entry s k m, keep_properties ps m)

-- Where nothing was set the map is the old one.
mutual
  unfolding set_properties

  unchanged_entry :
      (s : Schema) (key : String) (m : Fields)
      → (set_entry s key m).1 ≡ false
      → (set_entry s key m).0 ≡ m
  unchanged_entry (schema d none_left) key m h = ground arith
  unchanged_entry (schema d (entry k s ps)) key m h =
      unchanged_nested key m (set_properties (entry k s ps)) (submap (lookup key m)) h

  pub unchanged_properties :
      (ps : Schemas) (m : Fields) → (set_properties ps m).1 ≡ false → (set_properties ps m).0 ≡ m
  unchanged_properties none_left m h = refl
  unchanged_properties (entry k s ps) m h =
      ground (arith, unchanged_entry s k m, unchanged_properties ps (set_entry s k m).0)

settle_leaf :
    (d : Json) (key : String) (m : Fields) → leaf_settled d (lookup key (set_leaf d key m).0) ≡ true
settle_leaf d key m = elim (Option-cases (lookup key m)) [
  | inl gone ↦ ground (arith, lookup-insert key key d m, eq_refl key)
  | inr (v, here) ↦ ground arith
]

settle_nested :
    (key : String) (m : Fields) (f : Fields → Fields × Bool) (p : Fields → Bool) (o : Option Fields)
    → submap (lookup key m) ≡ o
    → ((sub : Fields) → p (f sub).0 ≡ true)
    → ((sub : Fields) → (f sub).1 ≡ false → (f sub).0 ≡ sub)
    → when_some p (submap (lookup key (set_nested key m f o).0)) ≡ true
settle_nested key m f p none e good same = rw e
settle_nested key m f p (some sub) e good same = elim (Bool-cases (f sub).1) [
  | inl changed ↦
      rw changed (rw (lookup-insert key key (obj (f sub).0) m) (rw (eq_refl key) (good sub)))
  | inr kept ↦ rw kept (rw e (rw (same sub kept) at (good sub)))
]

mutual
  unfolding set_properties settled distinct

  settle_entry :
      (s : Schema) (key : String) (m : Fields)
      → distinct_in s ≡ true
      → settled_at s (lookup key (set_entry s key m).0) ≡ true
  settle_entry (schema d none_left) key m h = settle_leaf d key m
  settle_entry (schema d (entry k s ps)) key m h =
      settle_nested key m (set_properties (entry k s ps)) (settled (entry k s ps))
        (submap (lookup key m)) refl (λ sub. settle_properties (entry k s ps) sub h)
        (unchanged_properties (entry k s ps))

  settle_properties :
      (ps : Schemas) (m : Fields) → distinct ps ≡ true → settled ps (set_properties ps m).0 ≡ true
  settle_properties none_left m h = refl
  settle_properties (entry k s ps) m h =
      rw (lookup_unnamed ps k (set_entry s k m).0 (last_entry k s ps h))
        (ground (arith, settle_entry s k m, settle_properties ps (set_entry s k m).0))

-- Setting the defaults a second time changes nothing and reports no change, for a schema in which no
-- key stands twice.
pub set_properties_idempotent :
    (ps : Schemas) (m : Fields)
    → distinct ps ≡ true
    → set_properties ps (set_properties ps m).0 ≡ ((set_properties ps m).0, false)
set_properties_idempotent ps m h = keep_properties ps _ (settle_properties ps m h)
