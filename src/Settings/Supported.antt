-- ===== src/Settings/Supported.antt =====
-- Settings that the webhook has admitted, on their way through SetDefaults to CompareSettings.
use provider_exoscale.Prelude.{
  map_err-eq-ok, String, Bool, true, false, not, ◌||◌, ◌&&◌, ◌≡◌, ◌≢◌, refl, ap, ◌∙◌, some, Result,
  ok, panic, Fault, Result-cases, wrap, ◌>>=◌, ◌==◌, if◌then◌else◌, Option-cases, Bool-cases, inl,
  inr, arith,
}
use provider_exoscale.Prelude.Tests
use provider_exoscale.Json.{
  Json, null, bool, int, float, str, arr, obj, Fields, end, field, lookup, insert, index, size,
  iface_eq, RawExtension, JsonCodec, to_map, to_raw_extension,
}
use provider_exoscale.Webhook.{is_supported, validate_raw_extension}
use provider_exoscale.Webhook.Laws.{AllSupported, validate_raw_extension_iff}
use provider_exoscale.Mapper.Compare.{false_on_error, compare_each, compare_maps, compare_settings}
use provider_exoscale.Settings.{
  Schema, schema, Schemas, none_left, entry, has_default, set_leaf, set_properties, find_schema,
  properties, set_defaults,
}

-- A schema without nested properties whose defaults are strings, numbers and Booleans.
abbrev pub leaf_supported : Schema → Bool
leaf_supported (schema d none_left) = not (has_default d) || is_supported d
leaf_supported (schema d (entry k s ps)) = false

abbrev pub flat_supported : Schemas → Bool
flat_supported none_left = true
flat_supported (entry k s ps) = leaf_supported s && flat_supported ps

AllSupported-insert :
    (k : String) (v : Json) (m : Fields)
    → is_supported v ≡ true
    → AllSupported m
    → AllSupported (insert k v m)
unfolding insert
AllSupported-insert k v end h all = (h, tt)
AllSupported-insert k v (field j w m) h all = elim (Bool-cases (j == k)) [
  | inl same ↦ rw same (h, all.1)
  | inr other ↦ rw other (all.0, AllSupported-insert k v m h all.1)
]

set_leaf-AllSupported :
    (d : Json) (key : String) (m : Fields)
    → leaf_supported (schema d none_left) ≡ true
    → AllSupported m
    → AllSupported (set_leaf d key m).0
set_leaf-AllSupported d key m h all = elim (Option-cases (lookup key m)) [
  | inr (v, here) ↦ let same : set_leaf d key m ≡ (m, false) = ground arith in rw same all
  | inl gone ↦ elim (Bool-cases (has_default d)) [
    | inl given ↦
        let filled : set_leaf d key m ≡ (insert key d m, true) = ground arith in
        rw filled (AllSupported-insert key d m (rw given at h) all)
    | inr missing ↦ let same : set_leaf d key m ≡ (m, false) = ground arith in rw same all
  ]
]

set_properties-AllSupported :
    (ps : Schemas) (m : Fields)
    → flat_supported ps ≡ true
    → AllSupported m
    → AllSupported (set_properties ps m).0
unfolding set_properties
set_properties-AllSupported none_left m h all = all
set_properties-AllSupported (entry k (schema d none_left) ps) m h all =
    set_properties-AllSupported ps (set_leaf d k m).0 (ground arith)
      (set_leaf-AllSupported d k m (ground arith) all)
set_properties-AllSupported (entry k (schema d (entry j s qs)) ps) m h all = cc

-- `==` does not panic if one side is a string, a number or a Boolean.
iface_eq_total : (w v : Json) → is_supported v ≡ true → (b : Bool) × (iface_eq w v ≡ ok b)
unfolding iface_eq
iface_eq_total null (bool b) h = (_, refl)
iface_eq_total (bool b') (bool b) h = (_, refl)
iface_eq_total (int n') (bool b) h = (_, refl)
iface_eq_total (float x') (bool b) h = (_, refl)
iface_eq_total (str s') (bool b) h = (_, refl)
iface_eq_total (arr xs') (bool b) h = (_, refl)
iface_eq_total (obj m') (bool b) h = (_, refl)
iface_eq_total null (int n) h = (_, refl)
iface_eq_total (bool b') (int n) h = (_, refl)
iface_eq_total (int n') (int n) h = (_, refl)
iface_eq_total (float x') (int n) h = (_, refl)
iface_eq_total (str s') (int n) h = (_, refl)
iface_eq_total (arr xs') (int n) h = (_, refl)
iface_eq_total (obj m') (int n) h = (_, refl)
iface_eq_total null (float x) h = (_, refl)
iface_eq_total (bool b') (float x) h = (_, refl)
iface_eq_total (int n') (float x) h = (_, refl)
iface_eq_total (float x') (float x) h = (_, refl)
iface_eq_total (str s') (float x) h = (_, refl)
iface_eq_total (arr xs') (float x) h = (_, refl)
iface_eq_total (obj m') (float x) h = (_, refl)
iface_eq_total null (str s) h = (_, refl)
iface_eq_total (bool b') (str s) h = (_, refl)
iface_eq_total (int n') (str s) h = (_, refl)
iface_eq_total (float x') (str s) h = (_, refl)
iface_eq_total (str s') (str s) h = (_, refl)
iface_eq_total (arr xs') (str s) h = (_, refl)
iface_eq_total (obj m') (str s) h = (_, refl)
iface_eq_total w null h = cc
iface_eq_total w (arr xs) h = cc
iface_eq_total w (obj m) h = cc

if_ok :
    (b later : Bool) (r : Result Bool)
    → r ≡ ok later
    → (if b then r else ok false) ≡ ok (if b then later else false)
if_ok true later r e = e
if_ok false later r e = refl

compare_each_total : (sa sb : Fields) → AllSupported sa → (b : Bool) × (compare_each sa sb ≡ ok b)
unfolding compare_each
compare_each_total end sb all = (true, refl)
compare_each_total (field k v sa) sb all =
    let (same, e) = iface_eq_total (index k sb) v all.0 in
    let (later, f) = compare_each_total sa sb all.1 in
    (if same then later else false, rw e (if_ok same later (compare_each sa sb) f))

compare_maps_total : (sa sb : Fields) → AllSupported sa → (b : Bool) × (compare_maps sa sb ≡ ok b)
unfolding compare_maps
compare_maps_total sa sb all =
    let (b, e) = compare_each_total sa sb all in
    (_, if_ok (Tests.◌==◌ (size sa) (size sb)) b (compare_each sa sb) e)

-- What the code relies on of encoding/json: a map whose values are strings, numbers and Booleans is
-- read back from its encoding as such a map.
abbrev pub KeepsSupported : JsonCodec → Type 0
KeepsSupported codec =
    (m : Fields) (raw : RawExtension)
    → AllSupported m
    → to_raw_extension codec (some m) ≡ ok raw
    → (m' : Fields) × (to_map codec raw ≡ ok m') × AllSupported m'

-- CompareSettings on settings that decode to a map of strings, numbers and Booleans.
compare_settings_total :
    (codec : JsonCodec) (a b : RawExtension) (sa : Fields)
    → to_map codec a ≡ ok sa
    → AllSupported sa
    → ((p : Fault) → to_map codec b ≢ panic p)
    → (same : Bool) × (compare_settings codec a b ≡ ok same)
unfolding compare_settings
compare_settings_total codec a b sa e all safe =
    let compared = λ (r : Result Fields). false_on_error (r >>= λ sb. compare_maps sa sb) in
    let read = ap (λ r. false_on_error (r >>= λ m. to_map codec b >>= λ sb. compare_maps m sb)) e in
    elim (Result-cases (to_map codec b)) [
      | inl (sb, here) ↦
          let (same, t) = compare_maps_total sa sb all in
          (same, read ∙ ap compared here ∙ ap false_on_error t)
      | inr (inl (x, here)) ↦ (false, read ∙ ap compared here)
      | inr (inr (p, here)) ↦ absurd (safe p here)
    ]

defaulted :
    (codec : JsonCodec) (s : Schemas) (name : String) (sc : Schema) (input out : RawExtension)
    (m : Fields)
    → find_schema name s ≡ some sc
    → to_map codec input ≡ ok m
    → set_defaults codec s name input ≡ ok out
    → to_raw_extension codec (some (set_properties (properties sc) m).0) ≡ ok out
unfolding set_defaults
defaulted codec s name sc input out m found read filled =
    map_err-eq-ok (wrap "failed to parse defaulted setting: %w") _ out
      (rw (set_defaults, found, read) at filled)

-- Settings that the webhook admits can be compared: once SetDefaults has filled them in from a schema
-- without nested properties whose defaults are strings, numbers and Booleans, CompareSettings gives a
-- verdict on them and any settings whose decoding does not panic, and does not panic itself.
pub admitted_settings_compare :
    (codec : JsonCodec) (s : Schemas) (name : String) (sc : Schema)
    (input out reported : RawExtension)
    → KeepsSupported codec
    → find_schema name s ≡ some sc
    → flat_supported (properties sc) ≡ true
    → validate_raw_extension codec input ≡ ok tt
    → set_defaults codec s name input ≡ ok out
    → ((p : Fault) → to_map codec reported ≢ panic p)
    → (same : Bool) × (compare_settings codec out reported ≡ ok same)
admitted_settings_compare codec s name sc input out reported keeps found flat valid filled safe =
    let (m, read, all) = (validate_raw_extension_iff codec input).0 valid in
    let (m', back, kept) =
      keeps (set_properties (properties sc) m).0 out
        (set_properties-AllSupported (properties sc) m flat all)
        (defaulted codec s name sc input out m found read filled) in
    compare_settings_total codec out reported m' back kept safe
