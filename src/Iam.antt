-- ===== src/Iam.antt =====
-- operator/iamkeycontroller and apis/exoscale/v1/iam_types.go: the data of an IAM key, and the
-- Exoscale and Kubernetes clients over a state `W` of both services.
pub mod Role
pub mod Create
pub mod Retry
pub mod Connect
pub mod Observe
pub mod Delete
pub mod Webhook
pub mod Policy
pub mod Adoption
pub mod RoundTrip
pub mod Laws
pub mod Stale
pub mod Admission
use provider_exoscale.Prelude.{
  String, Bool, true, false, ◌&&◌, List, [], ◌∷◌, Option, none, some, Error, msg, Result, ok, err,
  panic, nil_deref, ◌==◌, if◌then◌else◌,
}
use provider_exoscale.Api.{Condition}
use provider_exoscale.Managed.{ConnectionDetails, Event}

pub record IamKeyParameters : Type 0 where
  pub key_name : String
  pub zone : String
  pub buckets : List String

pub record IamKeyObservation : Type 0 where
  pub key_id : String
  pub role_id : String
  pub key_name : String
  pub buckets : List String

-- IamKeyObservation.Equals.
unfoldable pub equals_observation : IamKeyObservation → IamKeyObservation → Bool
equals_observation this other =
    this.key_id == other.key_id
    && (this.role_id == other.role_id && this.key_name == other.key_name)

pub record SecretRef : Type 0 where
  pub name : String
  pub namespace : String

-- The spec's writeConnectionSecretToRef and providerConfigRef are pointers.
pub record IamKey : Type 0 where
  pub name : String
  pub external_name : String
  pub annotations : List (String × String)
  pub is_deleted : Bool
  pub secret_ref : Option SecretRef
  pub provider_config : Option String
  pub for_provider : IamKeyParameters
  pub conditions : List Condition
  pub at_provider : IamKeyObservation

-- GetKeyName.
unfoldable pub get_key_name : IamKey → String
get_key_name k =
    if k.for_provider.key_name == ""
    then (if k.external_name == "" then k.name else k.external_name)
    else k.for_provider.key_name

-- GetProviderConfigName.
unfoldable pub get_provider_config_name : IamKey → String
get_provider_config_name k = elim k.provider_config [ some ref ↦ ref | none ↦ "" ]

abbrev pub access_key_id_name : String
access_key_id_name = "AWS_ACCESS_KEY_ID"

abbrev pub secret_access_key_name : String
secret_access_key_name = "AWS_SECRET_ACCESS_KEY"

abbrev pub key_id_annotation_key : String
key_id_annotation_key = "exoscale.crossplane.io/key-id"

abbrev pub role_id_annotation_key : String
role_id_annotation_key = "exoscale.crossplane.io/role-id"

-- exoscalesdk.AccessKey; a resource is its domain and its name.
pub record AccessKey : Type 0 where
  pub key : String
  pub name : String
  pub secret : String
  pub resources : List (String × String)

-- A map[string]string: a lookup, a write and the deletion of a key.
unfoldable pub lookup : String → List (String × String) → Option String
lookup k [] = none
lookup k ((j, v) ∷ m) = if j == k then some v else lookup k m

unfoldable pub insert : String → String → List (String × String) → List (String × String)
insert k v [] = (k, v) ∷ []
insert k v ((j, w) ∷ m) = if j == k then (k, v) ∷ m else (j, w) ∷ insert k v m

unfoldable pub remove : String → List (String × String) → List (String × String)
remove k [] = []
remove k ((j, w) ∷ m) = let rest = remove k m in if j == k then rest else (j, w) ∷ rest

-- m[k], "" where the key is missing.
unfoldable pub index : String → List (String × String) → String
unfolding lookup
index k m = elim (lookup k m) [ none ↦ "" | some v ↦ v ]

-- toConnectionDetails; its argument is a pointer.
unfoldable pub to_connection_details : Option AccessKey → Result ConnectionDetails
to_connection_details none = panic nil_deref
to_connection_details (some k) =
    if k.key == ""
    then err (msg "iamKey key not found in connection details" [])
    else (if k.secret == ""
        then err (msg "iamKey secret not found in connection details" [])
        else ok ((access_key_id_name, k.key) ∷ (secret_access_key_name, k.secret) ∷ []))

-- corev1.Secret, as far as the controller writes it.
pub record Secret : Type 0 where
  pub name : String
  pub namespace : String
  pub labels : List (String × String)
  pub entries : List (String × String)
  pub immutable : Bool

-- pipelineContext, with what the steps act on.
pub record Context (W : Type 0) : Type 0 where
  pub iam_key : IamKey
  pub iam_exoscale_key : Option AccessKey
  pub credentials_secret : Option Secret
  pub world : W
  pub events : List Event
