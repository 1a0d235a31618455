-- ===== src/Tests/Mapping.antt =====
-- Runs of the conversions, the comparisons, the defaults and the shared checks of the webhooks.
use provider_exoscale.Prelude.{
  ℕ, String, Bool, true, false, ◌≡◌, ◌↔◌, ◌<◌, refl, [], ◌∷◌, none, some, Result, ok, err, panic,
  uncomparable, eq_iff, msg, leb, not, ◌==◌, if◌then◌else◌,
}
use mathlib.Core.Bool.{false≢true}
use provider_exoscale.Prelude.Int.{pos}
use provider_exoscale.Json.{
  null, bool, int, str, obj, Fields, end, field, lookup, JsonCodec, to_map, to_raw_extension,
}
use provider_exoscale.Time.{parse}
use provider_exoscale.Time.Format.{time_text}
use provider_exoscale.Time.Reading.{parse-reading}
use provider_exoscale.Api.{equals_backup}
use provider_exoscale.Mapper.Sets.{is_same_string_set}
use provider_exoscale.Mapper.Sets.Quotient.{of_list, is_same_string_set-of_list}
use provider_exoscale.Mapper.Compare.{compare_maps, compare_settings}
use provider_exoscale.Mapper.Compare.Laws.{compare_maps_refl}
use provider_exoscale.Mapper.Compare.Sound.{SameEntry, compare_maps_sound, null_matches_missing}
use provider_exoscale.Mapper.Conversions.{to_backup_schedule, to_backup_spec}
use provider_exoscale.Mapper.Conversions.Laws.{backup_settles_iff}
use provider_exoscale.Mapper.Versions.{VersionLib}
use provider_exoscale.Settings.{Schema, schema, Schemas, none_left, entry, set_properties}
use provider_exoscale.Settings.{set_defaults}
use provider_exoscale.Settings.Supported.{admitted_settings_compare}
use provider_exoscale.Settings.Laws.{lookup_kept, lookup_filled, lookup_unnamed}
use provider_exoscale.Settings.Reference.{scalar, descend, read_default, set_properties_reference}
use provider_exoscale.Settings.Idempotent.{set_properties_idempotent}
use provider_exoscale.Webhook.{validate_raw_extension}
use provider_exoscale.Webhook.Laws.{AllSupported}

is_same_string_set-of_list_example :
    (is_same_string_set ("a" ∷ "b" ∷ "a" ∷ []) (some ("b" ∷ "a" ∷ [])) ≡ true)
    ↔ (of_list ("a" ∷ "b" ∷ "a" ∷ []) ≡ of_list ("b" ∷ "a" ∷ []))
is_same_string_set-of_list_example =
    is_same_string_set-of_list ("a" ∷ "b" ∷ "a" ∷ []) ("b" ∷ "a" ∷ [])

abbrev flat : Fields
flat = field "timeout" (int (pos 30)) (field "log" (bool true) end)

abbrev nested : Fields
nested = field "log" (obj end) end

compare_maps_refl_example : compare_maps nested nested ≡ panic uncomparable
compare_maps_refl_example = compare_maps_refl nested (refl, tt)

compare_maps_sound_example : SameEntry (lookup "log" flat) (lookup "log" flat)
unfolding compare_maps
compare_maps_sound_example =
    compare_maps_sound flat flat (refl, (refl, tt)) (refl, (refl, tt)) refl refl "log"

null_matches_missing_example :
    (compare_maps (field "a" null end) (field "b" (bool true) end) ≡ ok true)
    × (lookup "a" (field "b" (bool true) end) ≡ none)
null_matches_missing_example =
    null_matches_missing "a" "b" (bool true) (λ h. false≢true ((eq_iff "a" "b").1 h))

parse-reading_example : parse "1:30:59" ≡ (pos 1, pos 30, pos 59, none)
parse-reading_example = parse-reading "1:30:59"

backup_settles_iff_example :
    (equals_backup
        (record { time_of_day = "1:30:00" })
        (to_backup_spec (some (to_backup_schedule "1:30:00").0))
      ≡ true)
    ↔ ((h : ℕ) × (m : ℕ) × ("1:30:00" ≡ time_text (pos h) (pos m)) × (h < 24) × (m < 60))
unfolding parse
backup_settles_iff_example = backup_settles_iff "1:30:00" refl

-- Two settings with defaults, one of which has a schema of its own.
abbrev schemas : Schemas
schemas =
    entry "timeout" (schema (int (pos 10)) none_left) (
      entry "log" (schema null (entry "level" (schema (str "info") none_left) none_left)) none_left)

-- The default of a setting two levels down, which the input leaves out.
set_properties_reference_example :
    scalar (descend (lookup "log" (set_properties schemas nested).0) ("level" ∷ []))
    ≡ scalar (some (str "info"))
unfolding provider_exoscale.Settings.Laws.distinct provider_exoscale.Settings.find_schema lookup
    read_default descend
set_properties_reference_example = set_properties_reference schemas nested "log" ("level" ∷ []) refl

set_properties_idempotent_example :
    set_properties schemas (set_properties schemas nested).0
    ≡ ((set_properties schemas nested).0, false)
unfolding provider_exoscale.Settings.Laws.distinct
set_properties_idempotent_example = set_properties_idempotent schemas nested refl

-- A decoder that knows one text.
abbrev codec : JsonCodec
codec = record {
  unmarshal = λ s. if s == "{\"log\":{}}" then ok nested else err (msg "syntax error" []);
  marshal = λ m. ok "{}";
}

-- Versions of one number, and their constraints.
abbrev number : String → Result ℕ
number s =
    if s == "14"
    then ok 14
    else (if s == "15"
        then ok 15
        else (if s == "16" then ok 16 else err (msg "malformed version" [])))

abbrev versions : VersionLib
versions = record {
  Version = ℕ;
  Constraint = ℕ;
  new_version = number;
  segments = λ n. n ∷ [];
  show = λ n. if leb n 14 then "14" else (if leb n 15 then "15" else "16");
  greater_than = λ a b. not (leb a b);
  new_constraint = λ s. if s == "<= 15" then ok 15 else err (msg "malformed constraint" []);
  check = λ c v. leb v c;
}

not-not : (b : Bool) → b ≡ not (not b)
not-not true = refl
not-not false = refl

-- A decoder that reads the settings of `flat` from every text.
abbrev flat_codec : JsonCodec
flat_codec = record { unmarshal = λ s. ok flat; marshal = λ m. ok "{}" }

flat_codec_reads :
    (b : Bool) → (m : Fields) × ((if b then ok end else ok flat) ≡ ok m) × AllSupported m
flat_codec_reads true = (end, refl, tt)
flat_codec_reads false = (flat, refl, (refl, (refl, tt)))

abbrev timeouts : Schema
timeouts = schema null (entry "timeout" (schema (int (pos 10)) none_left) none_left)

admitted_settings_compare_example :
    (same : Bool) × (compare_settings flat_codec (record { raw = "{}" }) (record { raw = "{}" })
      ≡ ok same)
unfolding provider_exoscale.Settings.find_schema validate_raw_extension set_defaults
    to_raw_extension to_map
admitted_settings_compare_example =
    admitted_settings_compare flat_codec (entry "mysql" timeouts none_left) "mysql" timeouts
      (record { raw = "x" }) (record { raw = "{}" }) (record { raw = "{}" })
      (λ m raw all e. flat_codec_reads (raw.raw == "")) refl refl refl refl (λ p h. cc)
