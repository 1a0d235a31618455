-- ===== src/Webhook/Laws.antt =====
-- What the shared checks of the webhooks admit.
use provider_exoscale.Prelude.{
  String, Bool, true, false, not, ◌&&◌, ◌≡◌, ◌≢◌, sym, ◌↔◌, ◌⊎◌, inl, inr, refl, List, [], ◌∷◌,
  Error, Result, ok, err, panic, map_err, ◌>>=◌, ◌==◌, eq_iff, arith, Bool-cases, if◌then◌else◌,
}
use Prim.Native.String.{◌++◌}
use mathlib.Core.List.{Memᴰ}
use mathlib.Core.Path.{subst}
use provider_exoscale.Json.{Fields, end, field, RawExtension, JsonCodec, to_map}
use provider_exoscale.Mapper.Versions.{VersionLib}
use provider_exoscale.Webhook.{
  is_supported, validate_values, validate_raw_extension, validate_update_version, contains,
  validate_versions,
}

-- Every value of the settings is a string, a number or a Boolean.
abbrev pub AllSupported : Fields → Type 0
AllSupported end = Unit
AllSupported (field k v m) = (is_supported v ≡ true) × AllSupported m

validate_values_iff : (m : Fields) → (validate_values m ≡ ok tt) ↔ AllSupported m
unfolding validate_values
validate_values_iff end = ((λ e. tt), (λ h. refl))
validate_values_iff (field k v m) = grind (arith, validate_values_iff m)

decoded_iff :
    (f : Error → Error) (r : Result Fields)
    → ((map_err f r >>= validate_values) ≡ ok tt) ↔ ((m : Fields) × (r ≡ ok m) × AllSupported m)
decoded_iff f (ok m) = (
  (λ e. (m, refl, (validate_values_iff m).0 e)),
  (λ (m', e, h). (validate_values_iff m).1 (subst AllSupported (cc) h)),
)
decoded_iff f (err e) = ((λ q. cc), (λ (m, q, h). cc))
decoded_iff f (panic p) = ((λ q. cc), (λ (m, q, h). cc))

-- ValidateRawExtension accepts exactly the settings that decode to a map with no null, array or
-- object among its values.
pub validate_raw_extension_iff :
    (codec : JsonCodec) (raw : RawExtension)
    → (validate_raw_extension codec raw ≡ ok tt)
      ↔ ((m : Fields) × (to_map codec raw ≡ ok m) × AllSupported m)
unfolding validate_raw_extension
validate_raw_extension_iff codec raw = decoded_iff _ (to_map codec raw)

Mem_of_contains : (s : List String) (e : String) → contains s e ≡ true → Memᴰ e s
unfolding contains
Mem_of_contains [] e h = cc
Mem_of_contains (a ∷ s) e h = elim (Bool-cases (a == e)) [
  | inl same ↦ Memᴰ.head (sym ((eq_iff a e).0 same))
  | inr other ↦ Memᴰ.tail (Mem_of_contains s e (rw other at h))
]

contains_of_Mem : (s : List String) (e : String) → Memᴰ e s → contains s e ≡ true
unfolding contains
contains_of_Mem [] e m = elim m [ ]
contains_of_Mem (a ∷ s) e (Memᴰ.head p) = ground (arith, eq_iff a e)
contains_of_Mem (a ∷ s) e (Memᴰ.tail m) = ground (arith, contains_of_Mem s e m)

-- ValidateVersions accepts exactly the non-empty versions that stand in the list of the admitted
-- ones.
pub validate_versions_iff :
    (wanted : String) (admitted_versions : List String)
    → (validate_versions wanted admitted_versions ≡ ok tt)
      ↔ ((wanted ≢ "") × Memᴰ wanted admitted_versions)
unfolding validate_versions
validate_versions_iff wanted versions = (
  (λ e. (ground (arith, eq_iff wanted ""), Mem_of_contains versions wanted (ground arith))),
  (λ (n, m). ground (arith, eq_iff wanted "", contains_of_Mem versions wanted m)),
)

-- The test at the end of ValidateUpdateVersion.
update_test :
    (above_desired above_observed : Bool) (e : Error)
    → (◌≡◌ {A = Result (Unit {0})}
        (if above_desired && not (not above_observed) then err e else ok tt)
        (ok tt))
      ↔ ((above_desired ≡ false) ⊎ (above_observed ≡ false))
update_test true true e = ground arith
update_test true false e = ground arith
update_test false b e = ground arith

module _ (lib : VersionLib) where
  -- The constraint "<= v" can be parsed, and admits the versions that are not greater than v.
  abbrev pub HasLeConstraint : lib.Version → Type 0
  HasLeConstraint v =
      (c : lib.Constraint) × (lib.new_constraint ("<= " ++ lib.show v) ≡ ok c)
      × ((w : lib.Version) → lib.check c w ≡ not (lib.greater_than w v))

  -- For three versions that parse, where the constraint "<= old observed" means what it says, a
  -- new version is admitted exactly if it is not greater than the old desired or not greater than
  -- the old observed one.
  pub validate_update_version_iff :
      (old_obs old_des new_des : String) (obs des new : lib.Version)
      → lib.new_version old_obs ≡ ok obs
      → lib.new_version old_des ≡ ok des
      → lib.new_version new_des ≡ ok new
      → HasLeConstraint obs
      → (validate_update_version lib old_obs old_des new_des ≡ ok tt)
        ↔ ((lib.greater_than new des ≡ false) ⊎ (lib.greater_than new obs ≡ false))
  unfolding validate_update_version
  validate_update_version_iff old_obs old_des new_des obs des new e1 e2 e3 (c, e4, le) =
      rw (e1, e2, e3, e4)
        (rw (le new) (update_test (lib.greater_than new des) (lib.greater_than new obs) _))
