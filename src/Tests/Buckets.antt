-- ===== src/Tests/Buckets.antt =====
-- Runs of the bucket controller.
use provider_exoscale.Prelude.{true, ◌≡◌, refl, inr, [], ◌∷◌, msg, ok, err, ◌↔◌, ◌⊎◌}
use provider_exoscale.Pipeline.{in_order, in_order-RunsInOrder, run_in_order}
use provider_exoscale.Bucket.{Bucket, get_bucket_name}
use provider_exoscale.Bucket.Handlers.{
  has_lock, has_delete_all_policy, observe, delete, delete_all_objects, delete_s3_bucket,
  emit_deletion_event, listed_keys,
}
use provider_exoscale.Bucket.Observe.{ReportsExisting, observe-ReportsExisting_iff}
use provider_exoscale.Bucket.Deletion.{delete_keeps_objects}
use provider_exoscale.Bucket.Webhook.{validate_update, compare_created, has_provider_config}
use provider_exoscale.Bucket.Lifecycle.{
  validate_update_iff, Reach, Step, Reach-SameBucket, SameBucket,
}
use provider_exoscale.Tests.Fixtures.{crossplane, storage, bucket}

observe-ReportsExisting_iff_example :
    ReportsExisting (observe crossplane (storage []) (bucket "DeleteAll" "") []).1 ↔ (
      ((storage []).bucket_exists (get_bucket_name (bucket "DeleteAll" "")) [] ≡ ok true)
      × (has_lock (bucket "DeleteAll" "") ≡ true))
observe-ReportsExisting_iff_example =
    observe-ReportsExisting_iff crossplane (storage []) (bucket "DeleteAll" "") []

-- A bucket with an object in it, which Delete leaves alone.
delete_keeps_objects_example :
    (delete (storage []) in_order (bucket "DeleteIfEmpty" "data") ("object" ∷ [])).0.world
    ≡ "object" ∷ []
unfolding has_delete_all_policy
delete_keeps_objects_example =
    delete_keeps_objects (storage []) in_order in_order-RunsInOrder (bucket "DeleteIfEmpty" "data")
      ("object" ∷ []) refl

delete_empties :
    (delete (storage []) in_order (bucket "DeleteAll" "data") ("object" ∷ [])).1 ≡ ok tt
unfolding delete run_in_order has_delete_all_policy delete_all_objects delete_s3_bucket
    emit_deletion_event listed_keys
delete_empties = refl

abbrev renamed : Bucket
renamed = record (bucket "DeleteAll" "data") { name = "other" }

validate_update_iff_example : (validate_update (bucket "DeleteAll" "data") renamed ≡ ok tt) ↔ (
    (has_provider_config renamed.provider_config ≡ true)
    × (((bucket "DeleteAll" "data").status.bucket_name ≡ "")
        ⊎ ((get_bucket_name renamed ≡ (bucket "DeleteAll" "data").status.bucket_name)
            × (renamed.for_provider.zone ≡ (bucket "DeleteAll" "data").for_provider.zone))))
validate_update_iff_example = validate_update_iff (bucket "DeleteAll" "data") renamed

renaming_refused :
    validate_update (bucket "DeleteAll" "data") renamed
    ≡ err (msg "a bucket named %q has been created already, you cannot rename it" ("data" ∷ []))
unfolding validate_update compare_created get_bucket_name
renaming_refused = refl

-- Observed once, and then given another deletion policy.
abbrev history :
    Reach crossplane
      (storage [])
      (bucket "DeleteAll" "data")
      (observe crossplane (storage []) (bucket "DeleteAll" "data") []).0
history = Reach.next Reach.here (Step.observed (bucket "DeleteAll" "data") [])

Reach-SameBucket_example :
    SameBucket crossplane
      (storage [])
      (bucket "DeleteAll" "data")
      (observe crossplane (storage []) (bucket "DeleteAll" "data") []).0
unfolding get_bucket_name
Reach-SameBucket_example = Reach-SameBucket crossplane (storage []) history (inr refl) (λ h. cc)
