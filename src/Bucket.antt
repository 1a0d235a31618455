-- ===== src/Bucket.antt =====
-- operator/bucketcontroller and apis/exoscale/v1/bucket_types.go: the data of a bucket resource, and
-- the S3 client of minio-go over a state `W` of the remote side.
pub mod Handlers
pub mod Connect
pub mod Webhook
pub mod Observe
pub mod Deleted
pub mod Converges
pub mod Claimed
pub mod Deletion
pub mod Lifecycle
use provider_exoscale.Prelude.{
  ℕ, String, Bool, true, false, List, [], ◌∷◌, Option, none, some, Error, Result, ◌==◌,
  if◌then◌else◌,
}
use provider_exoscale.Api.{Condition}
use provider_exoscale.Managed.{Event}

-- BucketDeletionPolicy.
abbrev pub delete_if_empty : String
delete_if_empty = "DeleteIfEmpty"

abbrev pub delete_all : String
delete_all = "DeleteAll"

pub record BucketParameters : Type 0 where
  pub bucket_name : String
  pub endpoint_url : String
  pub zone : String
  pub bucket_deletion_policy : String

pub record BucketStatus : Type 0 where
  pub conditions : List Condition
  pub endpoint : String
  pub endpoint_url : String
  pub bucket_name : String

-- The annotations are nil or a map; of spec.providerConfigRef only the name counts.
pub record Bucket : Type 0 where
  pub name : String
  pub annotations : Option (List (String × String))
  pub provider_config : Option String
  pub for_provider : BucketParameters
  pub status : BucketStatus

-- GetBucketName.
unfoldable pub get_bucket_name : Bucket → String
get_bucket_name b = if b.for_provider.bucket_name == "" then b.name else b.for_provider.bucket_name

-- GetProviderConfigName.
unfoldable pub get_provider_config_name : Bucket → String
get_provider_config_name b = elim b.provider_config [ some ref ↦ ref | none ↦ "" ]

-- An object of ListObjects, or an error of the listing.
pub data Listed : Type 0 where
  object : String → Listed
  failed : Error → Listed

-- The minio client: `status_code` is that of ToErrorResponse.
pub record S3 (W : Type 0) : Type 0 where
  pub make_bucket : String → String → W → W × Result (Unit {0})
  pub bucket_exists : String → W → Result Bool
  pub list_objects : String → W → List Listed
  -- Whether the bucket has a lock mode.
  pub object_lock_mode : String → W → Result Bool
  -- Removes the objects, under a governance bypass or not, and returns what could not be removed.
  pub remove_objects : String → List String → Bool → W → W × List (String × Error)
  pub remove_bucket : String → W → W × Result (Unit {0})
  pub status_code : Error → ℕ

-- pipelineContext, with what the steps act on: the bucket, the remote side and the events.
pub record Context (W : Type 0) : Type 0 where
  pub bucket : Bucket
  pub world : W
  pub events : List Event
