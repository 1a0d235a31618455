-- ===== src/Mapper/Compare.antt =====
-- operator/mapper/dbaas.go: CompareSettings, with the loop over the first map.
pub mod Laws
pub mod Sound
use provider_exoscale.Prelude.{
  String, Bool, true, false, Result, ok, err, panic, ◌>>=◌, if◌then◌else◌,
}
use provider_exoscale.Prelude.Tests
use provider_exoscale.Json.{
  Json, Fields, end, field, index, size, iface_eq, RawExtension, JsonCodec, to_map,
}

-- for k, va := range sa { if sb[k] != va { return false } }
unfoldable pub compare_each : Fields → Fields → Result Bool
unfolding index iface_eq
compare_each end sb = ok true
compare_each (field k va sa) sb =
    let later = compare_each sa sb in
    iface_eq (index k sb) va >>= λ same. if same then later else ok false

-- What CompareSettings does with the two decoded maps.
unfoldable pub compare_maps : Fields → Fields → Result Bool
unfolding compare_each size
compare_maps sa sb = if Tests.◌==◌ (size sa) (size sb) then compare_each sa sb else ok false

-- A returned error counts as a difference.
abbrev pub false_on_error : Result Bool → Result Bool
false_on_error (ok b) = ok b
false_on_error (err e) = ok false
false_on_error (panic p) = panic p

unfoldable pub compare_settings : JsonCodec → RawExtension → RawExtension → Result Bool
unfolding compare_maps to_map
compare_settings codec a b =
    false_on_error (to_map codec a >>= λ sa. to_map codec b >>= λ sb. compare_maps sa sb)
