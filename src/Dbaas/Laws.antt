-- ===== src/Dbaas/Laws.antt =====
-- Lemmas that the controllers for databases share, and what their webhooks admit.
use mathlib.Core.Bool.{false≢true}
use provider_exoscale.Prelude.{
  ℕ, String, Bool, true, false, ◌≡◌, ◌≢◌, ◌↔◌, ◌⊎◌, inl, inr, refl, ap, ◌∙◌, List, [], ◌∷◌, ◌++◌,
  Option, none, some, map, Error, Result, ok, err, panic, ◌>>◌, Bool-cases, if◌then◌else◌, ◌==◌,
  eq_iff, arith,
}
use provider_exoscale.Prelude.Text.{codes}
use provider_exoscale.Json.{Fields, RawExtension, JsonCodec, bool_eq, to_map}
use provider_exoscale.Time.{parse}
use provider_exoscale.Api.{
  Notification, CaseFold, SizeSpec, same_runes, equal_fold, equals_size, MaintenanceSpec,
}
use provider_exoscale.Mapper.Sets.{is_same_string_set}
use provider_exoscale.Mapper.Sets.Laws.{is_same_string_set_iff}
use provider_exoscale.Mapper.Versions.{VersionLib}
use provider_exoscale.Webhook.{validate_raw_extension, validate_update_version}
use provider_exoscale.Webhook.Laws.{AllSupported, validate_raw_extension_iff}
use provider_exoscale.Dbaas.{noted, starts_with, contains_codes, is_taken}
use provider_exoscale.Dbaas.Webhook.{error_or_ok, check_spec, check_zone, check_version}

same_runes_refl : (cs : List ℕ) → same_runes cs cs ≡ true
same_runes_refl [] = refl
same_runes_refl (c ∷ cs) = ground (arith, same_runes_refl cs)

pub equals_size_refl : (u : CaseFold) (s : SizeSpec) → equals_size u s s ≡ true
unfolding equals_size equal_fold
equals_size_refl u s = same_runes_refl (map u.fold (codes s.plan))

pub bool_eq_refl : (b : Bool) → bool_eq b b ≡ true
bool_eq_refl true = refl
bool_eq_refl false = refl

pub bool_eq_iff : (a b : Bool) → (bool_eq a b ≡ true) ↔ (a ≡ b)
bool_eq_iff true true = ground arith
bool_eq_iff true false = ground arith
bool_eq_iff false true = ground arith
bool_eq_iff false false = ground arith

pub is_same_string_set_refl : (xs : List String) → is_same_string_set xs (some xs) ≡ true
is_same_string_set_refl xs = (is_same_string_set_iff xs xs).1 (λ s. refl)

ok_or : {A : Type 0} → A → Result A → A
ok_or a (ok b) = b
ok_or a (err e) = a
ok_or a (panic p) = a

pub ok-injective : {A : Type 0} {a b : A} → ◌≡◌ {A = Result A} (ok a) (ok b) → a ≡ b
unfolding ok_or
ok-injective {a = a} e = ap (ok_or a) e

-- A text contains another exactly if it is the other with something before and after it.
starts_with-++ : (sub post : List ℕ) → starts_with sub (sub ++ post) ≡ true
starts_with-++ [] post = refl
starts_with-++ (c ∷ cs) post = ground (arith, starts_with-++ cs post)

starts_with_post : (sub s : List ℕ) → starts_with sub s ≡ true → (post : List ℕ) × (s ≡ sub ++ post)
starts_with_post [] s h = (s, refl)
starts_with_post (c ∷ cs) [] h = absurd (false≢true h)
starts_with_post (c ∷ cs) (d ∷ ds) h =
    let same : c ≡ d = ground arith in
    let (post, e) = starts_with_post cs ds (ground arith) in (post, cc)

contains_codes-++ : (sub pre post : List ℕ) → contains_codes sub (pre ++ (sub ++ post)) ≡ true
contains_codes-++ [] [] [] = refl
contains_codes-++ [] [] (p ∷ post) = refl
contains_codes-++ (c ∷ cs) [] post = ground (arith, starts_with-++ cs post)
contains_codes-++ sub (p ∷ pre) post = ground (arith, contains_codes-++ sub pre post)

contains_codes_middle :
    (sub s : List ℕ)
    → contains_codes sub s ≡ true
    → (pre : List ℕ) × (post : List ℕ) × (s ≡ pre ++ (sub ++ post))
contains_codes_middle sub [] h = let (post, e) = starts_with_post sub [] h in ([], post, e)
contains_codes_middle sub (d ∷ ds) h = elim (Bool-cases (starts_with sub (d ∷ ds))) [
  | inl here ↦ let (post, e) = starts_with_post sub (d ∷ ds) here in ([], post, e)
  | inr not_here ↦
      let (pre, post, e) = contains_codes_middle sub ds (ground arith) in
      (d ∷ pre, post, ap (λ t. d ∷ t) e)
]

-- The test of Create for a name that is taken is true exactly if the text of the error has the
-- phrase "Service name is already taken" somewhere in it.
pub is_taken_iff :
    (error_text : Error → String) (e : Error)
    → (is_taken error_text e ≡ true) ↔ (
        (pre : List ℕ) × (post : List ℕ) × (codes (error_text e)
          ≡ pre ++ (codes "Service name is already taken" ++ post)))
is_taken_iff error_text e = (
  contains_codes_middle (codes "Service name is already taken") (codes (error_text e)),
  λ (pre, post, q).
      ap (contains_codes (codes "Service name is already taken")) q
      ∙ contains_codes-++ (codes "Service name is already taken") pre post,
)

then_iff :
    (e : Option Error) (r : Result (Unit {0}))
    → ((error_or_ok e >> r) ≡ ok tt) ↔ ((e ≡ none) × (r ≡ ok tt))
then_iff none r = ground arith
then_iff (some e) r = ground arith

-- What validateSpec of the controllers admits: an IP filter that is not empty, a maintenance time that
-- Parse accepts, and settings that decode to a map of strings, numbers and Booleans.
pub check_spec_iff :
    (codec : JsonCodec) (ip_filter : List String) (m : MaintenanceSpec) (s : RawExtension)
    → (check_spec codec ip_filter m s ≡ ok tt) ↔ (
        (ip_filter ≢ [])
        × ((parse m.time_of_day).3 ≡ none)
        × ((fs : Fields) × (to_map codec s ≡ ok fs) × AllSupported fs))
unfolding check_spec
check_spec_iff codec [] m s = ((λ h. cc), (λ h. absurd (h.0 refl)))
check_spec_iff codec (a ∷ as') m s =
    let steps = then_iff (parse m.time_of_day).3 (validate_raw_extension codec s) in
    let decoded = validate_raw_extension_iff codec s in
    (
      (λ h. let (timed, valid) = steps.0 h in ((λ q. cc), timed, decoded.0 valid)),
      (λ (q, timed, valid). steps.1 (timed, decoded.1 valid)),
    )

-- The zone stays, and the version stays or is admitted by ValidateUpdateVersion.
pub check_zone_iff :
    (text old_zone new_zone : String) (r : Result (Unit {0}))
    → ((check_zone text old_zone new_zone >> r) ≡ ok tt) ↔ ((old_zone ≡ new_zone) × (r ≡ ok tt))
check_zone_iff text old_zone new_zone r = ground (arith, eq_iff old_zone new_zone)

unless_iff :
    {P : Type 0} (b : Bool)
    → ((b ≡ true) ↔ P)
    → (r : Result (Unit {0})) → ((if b then ok tt else r) ≡ ok tt) ↔ (P ⊎ (r ≡ ok tt))
unless_iff true h r = ((λ q. inl (h.0 refl)), (λ q. refl))
unless_iff false h r = (inr, (λ q. elim q [ inl p ↦ absurd (false≢true (h.1 p)) | inr e ↦ e ]))

pub check_version_iff :
    (lib : VersionLib) (observed old_version new_version : String)
    → (check_version lib observed old_version new_version ≡ ok tt) ↔ (
        (old_version ≡ new_version)
        ⊎ (validate_update_version lib observed
              (if old_version == "" then observed else old_version)
              new_version
            ≡ ok tt))
unfolding check_version
check_version_iff lib observed old_version new_version =
    unless_iff (old_version == new_version) (eq_iff old_version new_version) _

-- mapObservation succeeds where the notifications can be converted.
pub noted_ok :
    {O : Type 0} (add : List Notification → O) (o : O) (r : Result (Option (List Notification)))
    {ns : Option (List Notification)}
    → r ≡ ok ns
    → (o' : O) × (noted add o r ≡ ok o')
noted_ok add o (ok ns) h = (_, refl)
noted_ok add o (err e) h = cc
noted_ok add o (panic p) h = cc
