-- ===== src/Bucket/Connect.antt =====
-- operator/bucketcontroller/connector.go. net/url and the opening of the Exoscale client are
-- parameters of Connect.
use Prim.Native.String.{◌++◌}
use provider_exoscale.Prelude.{
  String, Bool, false, not, ◌&&◌, Option, some, Result, ok, ◌>>=◌, ◌==◌, if◌then◌else◌,
}
use provider_exoscale.Api.{Condition, Crossplane, find_status_condition, CaseFold, equal_fold}
use provider_exoscale.Bucket.{Bucket, get_provider_config_name}

-- The fields of url.URL that createS3Client reads.
pub record ParsedUrl : Type 0 where
  pub scheme : String
  pub host : String
  pub path : String

-- minio.Options with its endpoint: Creds (key and secret) and Secure.
pub record ClientOptions : Type 0 where
  pub endpoint : String
  pub api_key : String
  pub api_secret : String
  pub secure : Bool

pub data ExternalClient (C : Type 0) : Type 0 where
  noop_client : ExternalClient C
  provisioning : C → ExternalClient C

unfoldable pub get_endpoint : Bucket → String
get_endpoint b = "sos-" ++ (b.for_provider.zone ++ ".exo.io")

unfoldable pub get_endpoint_url : Bucket → String
unfolding get_endpoint
get_endpoint_url b = "https://" ++ get_endpoint b

unfoldable pub is_tls_enabled : CaseFold → ParsedUrl → Bool
unfolding equal_fold
is_tls_enabled u url = not (equal_fold u url.scheme "http")

module _ (xp : Crossplane) where
  -- The test on the two conditions, once both are there.
  abbrev pub deleted_conditions : Condition → Condition → Bool
  deleted_conditions ready sync =
      ready.status == xp.condition_false
      && ready.reason == xp.reason_deleting
      && (sync.status == xp.condition_true && sync.reason == xp.reason_reconcile_success)

  abbrev pub both_found : Option Condition → Option Condition → Bool
  both_found (some ready) (some sync) = deleted_conditions ready sync
  both_found _ _ = false

  unfoldable pub is_bucket_already_deleted : Bucket → Bool
  unfolding find_status_condition
  is_bucket_already_deleted b =
      both_found (find_status_condition b.status.conditions xp.type_ready)
        (find_status_condition b.status.conditions xp.type_synced)

module _ {C : Type 0} (xp : Crossplane) (u : CaseFold) (parse_url : String → Result ParsedUrl)
    (open_client : String → Result (String × String)) (new_client : ClientOptions → Result C) where
  unfoldable pub create_s3_client : String × String → String → Result C
  unfolding is_tls_enabled
  create_s3_client (key, secret) endpoint_url = do
    parsed ← parse_url endpoint_url
    new_client (record {
      endpoint = if parsed.host == "" then parsed.path else parsed.host;
      api_key = key;
      api_secret = secret;
      secure = is_tls_enabled u parsed;
    })

  abbrev set_endpoint : Bucket → Bucket
  set_endpoint b =
      let status = b.status in
      record b {
        status = record status { endpoint = get_endpoint b; endpoint_url = get_endpoint_url b };
      }

  unfoldable pub connect : Bucket → Bucket × Result (ExternalClient C)
  unfolding is_bucket_already_deleted get_endpoint_url create_s3_client
  connect b = if is_bucket_already_deleted xp b then (b, ok noop_client) else (
    set_endpoint b,
    (open_client (get_provider_config_name b) >>= λ keys.
        create_s3_client keys (set_endpoint b).status.endpoint_url >>= λ mc. ok (provisioning mc)),
  )
