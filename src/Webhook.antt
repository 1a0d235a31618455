-- ===== src/Webhook.antt =====
-- operator/webhook/validate.go: the checks that the validating webhooks share.
pub mod Laws
use provider_exoscale.Prelude.{
  String, Bool, true, false, not, ◌&&◌, List, [], ◌∷◌, Error, msg, wrap, Result, ok, err, map_err,
  ◌>>=◌, ◌>>◌, ◌==◌, if◌then◌else◌,
}
use Prim.Native.String.{◌++◌}
use provider_exoscale.Json.{
  Json, null, bool, int, float, str, arr, obj, Fields, end, field, RawExtension, JsonCodec, to_map,
}
use provider_exoscale.Mapper.Versions.{VersionLib}

-- The type switch: strings, int64, float64 and bool pass.
abbrev pub is_supported : Json → Bool
is_supported (str s) = true
is_supported (int n) = true
is_supported (float x) = true
is_supported (bool b) = true
is_supported _ = false

unfoldable pub validate_values : Fields → Result (Unit {0})
validate_values end = ok tt
validate_values (field k v m) =
    if is_supported v
    then validate_values m
    else err (
        msg
          "validate: value of key %q is not a supported type (only strings, boolean and numbers): %v"
          (k ∷ []))

unfoldable pub validate_raw_extension : JsonCodec → RawExtension → Result (Unit {0})
unfolding validate_values to_map
validate_raw_extension codec raw =
    map_err (wrap "mapper.ToMap(%q): %w") (to_map codec raw) >>= validate_values

module _ (lib : VersionLib) where
  unfoldable pub validate_update_version : String → String → String → Result (Unit {0})
  validate_update_version old_obs old_des new_des = do
    old_observed ← map_err (wrap "set old status version '%s' failed: %w") (lib.new_version old_obs)
    old_desired ← map_err (wrap "set old desired version '%s' failed: %w") (lib.new_version old_des)
    new_desired ← map_err (wrap "set new desired version '%s' failed: %w") (lib.new_version new_des)
    c ←
        map_err (wrap "set version constraint failed: %w")
          (lib.new_constraint ("<= " ++ lib.show old_observed))
    if lib.greater_than new_desired old_desired && not (lib.check c new_desired)
        then err (
            msg "field is immutable after creation: %s (old), %s (changed)"
              (lib.show old_desired ∷ lib.show new_desired ∷ []))
        else ok tt

-- contains.
unfoldable pub contains : List String → String → Bool
contains [] e = false
contains (a ∷ s) e = if a == e then true else contains s e

unfoldable pub validate_versions : String → List String → Result (Unit {0})
unfolding contains
validate_versions wanted admitted_versions =
    if wanted == ""
    then err (msg "version must be provided" [])
    else (if not (contains admitted_versions wanted)
        then err (msg "version not valid" [])
        else ok tt)
