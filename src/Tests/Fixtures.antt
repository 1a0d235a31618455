-- ===== src/Tests/Fixtures.antt =====
-- The services that the runs use: small functions in the place of the libraries and the network.
use provider_exoscale.Prelude.{String, false, List, [], ◌∷◌, some, msg, ok, err, ◌==◌}
use provider_exoscale.Api.{Condition, Crossplane}
use provider_exoscale.Bucket.{Bucket, S3, Listed}

abbrev pub condition : String → Condition
condition reason = record { type = "Ready"; status = "True"; reason = reason; message = "" }

abbrev pub crossplane : Crossplane
crossplane = record {
  type_ready = "Ready";
  type_synced = "Synced";
  reason_deleting = "Deleting";
  reason_reconcile_success = "ReconcileSuccess";
  condition_true = "True";
  condition_false = "False";
  available = condition "Available";
  creating = condition "Creating";
  deleting = condition "Deleting";
  set_conditions = λ cs c. c ∷ [];
}

-- A remote side that has the bucket "data" with the objects of its state. Their removal takes all of
-- them but those that are held.
abbrev pub storage : List String → S3 (List String)
storage held = record {
  make_bucket = λ name zone w. (w, ok tt);
  bucket_exists = λ name w. ok (name == "data");
  list_objects = λ name w. [];
  object_lock_mode = λ name w. ok false;
  remove_objects = λ name keys bypass w. (held, []);
  remove_bucket =
      λ name w. elim w [ [] ↦ ([], ok tt) | o ∷ os ↦ (o ∷ os, err (msg "not empty" [])) ];
  status_code = λ e. 409;
}

-- One that refuses new buckets and fails to list.
abbrev pub broken_storage : S3 (List String)
broken_storage = record (storage []) {
  make_bucket = λ name zone w. (w, err (msg "no access" []));
  bucket_exists = λ name w. err (msg "no access" []);
  list_objects = λ name w. Listed.failed (msg "no access" []) ∷ [];
}

-- A resource for the bucket "data": its deletion policy, and what the status names.
abbrev pub bucket : String → String → Bucket
bucket policy created = record {
  name = "data";
  annotations = some (("exoscale.crossplane.io/lock", "claimed") ∷ []);
  provider_config = some "config";
  for_provider = record {
    bucket_name = "";
    endpoint_url = "sos.example.com";
    zone = "ch-gva-2";
    bucket_deletion_policy = policy;
  };
  status = record { conditions = []; endpoint = ""; endpoint_url = ""; bucket_name = created };
}

-- One that cannot remove an object.
abbrev pub stuck_storage : S3 (List String)
stuck_storage = record (storage []) {
  remove_objects = λ name keys bypass w. (w, ("object", msg "held" []) ∷ []);
}
