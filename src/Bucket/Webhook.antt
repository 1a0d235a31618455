-- ===== src/Bucket/Webhook.antt =====
-- operator/bucketcontroller/webhook.go.
use provider_exoscale.Prelude.{
  String, Bool, false, not, [], ◌∷◌, Option, none, some, msg, Result, ok, err, ◌>>◌, ◌==◌,
  if◌then◌else◌,
}
use provider_exoscale.Bucket.{Bucket, get_bucket_name}

abbrev pub has_provider_config : Option String → Bool
has_provider_config none = false
has_provider_config (some ref) = not (ref == "")

abbrev require_provider_config : Bucket → Result (Unit {0})
require_provider_config b =
    if has_provider_config b.provider_config
    then ok tt
    else err (msg ".spec.providerConfigRef.name is required" [])

unfoldable pub validate_create : Bucket → Result (Unit {0})
validate_create b = require_provider_config b

-- The checks against a bucket that has been created.
unfoldable pub compare_created : Bucket → Bucket → Result (Unit {0})
compare_created old_bucket new_bucket =
    let created = old_bucket.status.bucket_name in
    if created == ""
    then ok tt
    else (if not (get_bucket_name new_bucket == created)
        then err
            (msg "a bucket named %q has been created already, you cannot rename it" (created ∷ []))
        else (if not (new_bucket.for_provider.zone == old_bucket.for_provider.zone)
            then err (
                msg "a bucket named %q has been created already, you cannot change the zone"
                  (created ∷ []))
            else ok tt))

unfoldable pub validate_update : Bucket → Bucket → Result (Unit {0})
unfolding compare_created
validate_update old_bucket new_bucket =
    compare_created old_bucket new_bucket >> require_provider_config new_bucket

unfoldable pub validate_delete : Bucket → Result (Unit {0})
validate_delete b = ok tt
