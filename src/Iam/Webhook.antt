-- ===== src/Iam/Webhook.antt =====
-- operator/iamkeycontroller/webhook.go.
use provider_exoscale.Prelude.{
  String, Bool, true, false, not, ◌&&◌, List, [], ◌∷◌, Option, none, some, msg, Result, ok, err,
  ◌>>◌, ◌==◌, if◌then◌else◌,
}
use provider_exoscale.Prelude.Text.{same_strings}
use provider_exoscale.Iam.{IamKey, IamKeyParameters, SecretRef}

abbrev pub has_provider_config : Option String → Bool
has_provider_config none = false
has_provider_config (some ref) = not (ref == "")

abbrev pub has_secret_ref : Option SecretRef → Bool
has_secret_ref none = false
has_secret_ref (some ref) = not (ref.name == "") && not (ref.namespace == "")

abbrev is_empty : List String → Bool
is_empty [] = true
is_empty (b ∷ bs) = false

abbrev pub require_provider_config : IamKey → Result (Unit {0})
require_provider_config k =
    if has_provider_config k.provider_config
    then ok tt
    else err (msg ".spec.providerConfigRef.name is required" [])

unfoldable pub validate_create : IamKey → Result (Unit {0})
validate_create k =
    if is_empty k.for_provider.buckets
    then err (msg "an IAMKey named %q should have at least 1 allowed bucket" (k.name ∷ []))
    else (if has_secret_ref k.secret_ref
        then require_provider_config k
        else err (
            msg
              ".spec.writeConnectionSecretToRef.name and .spec.writeConnectionSecretToRef.namespace are required"
              []))

-- equality.Semantic.DeepEqual, which takes a nil slice for an empty one.
unfoldable pub same_parameters : IamKeyParameters → IamKeyParameters → Bool
unfolding same_strings
same_parameters p q =
    p.key_name == q.key_name && (p.zone == q.zone && same_strings p.buckets q.buckets)

unfoldable pub same_secret_ref : Option SecretRef → Option SecretRef → Bool
same_secret_ref none none = true
same_secret_ref (some a) (some b) = a.name == b.name && a.namespace == b.namespace
same_secret_ref _ _ = false

-- The checks against a key that has been created.
unfoldable pub compare_created : IamKey → IamKey → Result (Unit {0})
compare_created old_key new_key =
    if old_key.at_provider.key_id == ""
    then ok tt
    else (if not (same_parameters new_key.for_provider old_key.for_provider)
        then err (
            msg "an IAMKey named %q has been created already, you cannot update it"
              (old_key.name ∷ []))
        else (if not (same_secret_ref new_key.secret_ref old_key.secret_ref)
            then err (
                msg
                  "an IAMKey named %q has been created already, you cannot update the connection secret reference"
                  (old_key.name ∷ []))
            else ok tt))

unfoldable pub validate_update : IamKey → IamKey → Result (Unit {0})
validate_update old_key new_key = compare_created old_key new_key >> require_provider_config new_key

unfoldable pub validate_delete : IamKey → Result (Unit {0})
validate_delete k = ok tt
