-- ===== src/Settings.antt =====
-- internal/settings/schema.go: schemas of the settings of a service, and SetDefaults. The order of
-- a `Schemas` is the order in which a `range` loop visits the map. A schema without a default has
-- null for one. ParseSchemas is a decoder of encoding/json into these types, and a parameter.
pub mod Supported
pub mod Laws
pub mod Reference
pub mod Idempotent
use provider_exoscale.Prelude.{
  String, Bool, true, false, not, ◌&&◌, ◌||◌, List, [], ◌∷◌, Option, none, some, Error, msg, wrap,
  Result, ok, err, map_err, ◌>>=◌, ◌==◌, if◌then◌else◌,
}
use provider_exoscale.Json.{
  Json, null, str, obj, Fields, end, lookup, insert, RawExtension, JsonCodec, to_map,
  to_raw_extension,
}

mutual
  pub data Schema : Type 0 where
    schema : (default : Json) (properties : Schemas) → Schema

  pub data Schemas : Type 0 where
    none_left : Schemas
    entry : String → Schema → Schemas → Schemas

-- val.Default != nil && val.Default != "null".
abbrev pub has_default : Json → Bool
has_default null = false
has_default (str s) = not (s == "null")
has_default _ = true

-- The map that the defaults of a nested schema go into: a new one where the key is missing, and
-- none where the key holds something else.
abbrev pub submap : Option Json → Option Fields
submap none = some end
submap (some (obj m)) = some m
submap (some _) = none

-- A schema without properties.
abbrev pub set_leaf : Json → String → Fields → Fields × Bool
set_leaf default key input = elim (lookup key input) [
  | some v ↦ (input, false)
  | none ↦ if has_default default then (insert key default input, true) else (input, false)
]

-- if setDefaults(val, submap) { input[key] = submap; hasSetDefaults = true }
abbrev pub store_submap : String → Fields → Fields × Bool → Fields × Bool
store_submap key input r = if r.1 then (insert key (obj r.0) input, true) else (input, false)

abbrev pub or_changed : Bool → Fields × Bool → Fields × Bool
or_changed changed r = (r.0, changed || r.1)

unfoldable mutual
  -- One round of the loop of setDefaults.
  pub set_entry : Schema → String → Fields → Fields × Bool
  set_entry (schema default none_left) key input = set_leaf default key input
  set_entry (schema default (entry k s ps)) key input = elim (submap (lookup key input)) [
    | none ↦ (input, false)
    | some m ↦ store_submap key input (set_properties (entry k s ps) m)
  ]

  -- setDefaults over sc.Properties: the map and hasSetDefaults.
  pub set_properties : Schemas → Fields → Fields × Bool
  set_properties none_left input = (input, false)
  set_properties (entry key val ps) input =
      let (next, changed) = set_entry val key input in or_changed changed (set_properties ps next)

-- s[name].
unfoldable pub find_schema : String → Schemas → Option Schema
find_schema name none_left = none
find_schema name (entry k s ps) = if k == name then some s else find_schema name ps

abbrev pub properties : Schema → Schemas
properties (schema default ps) = ps

module _ (codec : JsonCodec) where
  unfoldable pub set_defaults : Schemas → String → RawExtension → Result RawExtension
  unfolding find_schema
  set_defaults s name input = elim (find_schema name s) [
    | none ↦ err (msg "unknown schema: %q" (name ∷ []))
    | some sc ↦ map_err (wrap "failed to parse input: %w") (to_map codec input) >>= λ in_map.
        map_err (wrap "failed to parse defaulted setting: %w")
          (to_raw_extension codec (some (set_properties (properties sc) in_map).0))
  ]
