-- ===== src/Tests/BucketLife.antt =====
-- A bucket that is created, observed and deleted.
use provider_exoscale.Prelude.{
  String, false, ◌≡◌, refl, [], ◌∷◌, Option, none, some, ok, ◌==◌, eq_refl, inl,
}
use provider_exoscale.Managed.{no_observation}
use provider_exoscale.Pipeline.{in_order, in_order-RunsInOrder, run_in_order}
use provider_exoscale.Bucket.{Bucket, S3, get_bucket_name}
use provider_exoscale.Bucket.Handlers.{
  create, create_s3_bucket, set_lock, emit_creation_event, observe, delete, has_delete_all_policy,
  delete_all_objects, delete_s3_bucket, emit_deletion_event, listed_keys, has_lock,
}
use provider_exoscale.Bucket.Converges.{
  exists_up_to_date, created_bucket_observed, deleted_bucket_absent,
}
use provider_exoscale.Bucket.Webhook.{validate_update}
use provider_exoscale.Bucket.Claimed.{
  Reach, here, next, made, observed, Claimed, Reach-Claimed, renamed_bucket_removed,
}
use provider_exoscale.Tests.Fixtures.{crossplane, bucket}

-- A remote side that has one bucket at most.
abbrev shelf : S3 (Option String)
shelf = record {
  make_bucket = λ name zone w. (some name, ok tt);
  bucket_exists = λ name w. ok (elim w [ none ↦ false | some n ↦ n == name ]);
  list_objects = λ name w. [];
  object_lock_mode = λ name w. ok false;
  remove_objects = λ name keys bypass w. (w, []);
  remove_bucket = λ name w. (none, ok tt);
  status_code = λ e. 409;
}

created_bucket_observed_example :
    let c = (create shelf in_order (bucket "DeleteAll" "") none).0 in
    (observe crossplane shelf c.bucket c.world).1 ≡ ok exists_up_to_date
unfolding create run_in_order create_s3_bucket set_lock emit_creation_event
created_bucket_observed_example =
    created_bucket_observed crossplane shelf in_order in_order-RunsInOrder (bucket "DeleteAll" "")
      none (λ name zone v h. rw (eq_refl name) refl) refl

deleted_bucket_absent_example :
    let c = (delete shelf in_order (bucket "DeleteAll" "data") (some "data")).0 in
    (observe crossplane shelf c.bucket c.world).1 ≡ ok no_observation
unfolding get_bucket_name delete run_in_order has_delete_all_policy delete_all_objects
    delete_s3_bucket emit_deletion_event listed_keys
deleted_bucket_absent_example =
    deleted_bucket_absent crossplane shelf in_order in_order-RunsInOrder (bucket "DeleteAll" "data")
      (some "data") (λ name v h. refl) refl refl

-- A new resource, which has no lock yet.
abbrev unclaimed : Bucket
unclaimed = let b = bucket "DeleteAll" "" in record b { annotations = none }

claimed_life :
    Reach crossplane shelf in_order in_order-RunsInOrder [] unclaimed
      (get_bucket_name unclaimed ∷ [])
      (observe crossplane shelf (create shelf in_order unclaimed none).0.bucket (some "data")).0
unfolding create run_in_order create_s3_bucket set_lock emit_creation_event
claimed_life = next (next here (made [] unclaimed none refl)) (
    observed (get_bucket_name unclaimed ∷ []) (create shelf in_order unclaimed none).0.bucket
      (some "data"))

Reach-Claimed_example :
    Claimed crossplane shelf in_order in_order-RunsInOrder
      (get_bucket_name unclaimed ∷ [])
      (observe crossplane shelf (create shelf in_order unclaimed none).0.bucket (some "data")).0
unfolding has_lock
Reach-Claimed_example =
    Reach-Claimed crossplane shelf in_order in_order-RunsInOrder claimed_life
      ((λ locked. cc), inl refl)

-- The resource after a rename, to the name of a bucket that is there already.
abbrev renamed : Bucket
renamed =
    let b = bucket "DeleteIfEmpty" "" in
    let p = b.for_provider in record b { for_provider = record p { bucket_name = "foreign" } }

renamed_bucket_removed_example :
    (validate_update (bucket "DeleteIfEmpty" "") renamed ≡ ok tt)
    × ((observe crossplane shelf renamed (some "foreign")).0.status.bucket_name
        ≡ get_bucket_name renamed)
    × ((observe crossplane shelf renamed (some "foreign")).1 ≡ ok exists_up_to_date)
    × ((delete shelf in_order
          (observe crossplane shelf renamed (some "foreign")).0
          (some "foreign")).0.world
        ≡ none)
unfolding has_lock get_bucket_name
renamed_bucket_removed_example =
    renamed_bucket_removed crossplane shelf in_order in_order-RunsInOrder
      (bucket "DeleteIfEmpty" "") renamed (some "foreign") (some "foreign") refl refl refl refl refl
