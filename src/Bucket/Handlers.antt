-- ===== src/Bucket/Handlers.antt =====
-- operator/bucketcontroller: observe.go, create.go, delete.go, update.go, disconnect.go and noop.go.
use provider_exoscale.Prelude.{
  ℕ, String, Bool, true, false, ◌&&◌, List, [], ◌∷◌, ◌++◌, none, some, Error, msg, wrap, api,
  Result, ok, err, panic, map_err, ◌==◌, if◌then◌else◌,
}
use provider_exoscale.Prelude.Tests
use provider_exoscale.Api.{Crossplane}
use provider_exoscale.Managed.{ExternalObservation, no_observation, Event}
use provider_exoscale.Pipeline.{Step, new_step, when_step, Runner}
use provider_exoscale.Bucket.{
  Bucket, get_bucket_name, delete_all, Listed, object, failed, S3, Context,
}

-- exoscalev1.Group + "/lock".
abbrev pub lock_annotation : String
lock_annotation = "exoscale.crossplane.io/lock"

abbrev pub has_key : String → List (String × String) → Bool
has_key k [] = false
has_key k ((j, v) ∷ m) = if j == k then true else has_key k m

abbrev pub set_key : String → String → List (String × String) → List (String × String)
set_key k v [] = (k, v) ∷ []
set_key k v ((j, w) ∷ m) = if j == k then (k, v) ∷ m else (j, w) ∷ set_key k v m

-- _, hasAnnotation := bucket.Annotations[lockAnnotation], on a nil map too.
unfoldable pub has_lock : Bucket → Bool
has_lock b = elim b.annotations [ none ↦ false | some m ↦ has_key lock_annotation m ]

abbrev observe_error : ℕ → Error → Error
observe_error code e =
    if Tests.◌==◌ code 403
    then wrap "wrong credentials or bucket exists already, try changing bucket name" e
    else (if Tests.◌==◌ code 301
        then wrap
            "mismatching endpointURL and zone, or bucket exists already in a different region, try changing bucket name"
            e
        else wrap "cannot determine whether bucket exists" e)

module _ {W : Type 0} (xp : Crossplane) (s3 : S3 W) where
  -- bucket.Status.AtProvider.BucketName = bucketName; bucket.SetConditions(xpv1.Available())
  unfoldable pub mark_available : Bucket → Bucket
  mark_available b =
      let status = b.status in
      record b {
        status = record status {
          bucket_name = get_bucket_name b;
          conditions = xp.set_conditions status.conditions xp.available;
        };
      }

  -- What Observe makes of the answer of BucketExists.
  unfoldable pub observe_answer : Bucket → Result Bool → Bucket × Result ExternalObservation
  observe_answer b (ok exists) =
      if has_lock b && exists
      then (
        mark_available b,
        ok (record {
          resource_exists = true;
          resource_up_to_date = true;
          connection_details = [];
          diff = "";
        }),
      )
      else (if exists
          then (
            b,
            err (
                msg "bucket exists already, try changing bucket name: %s" (get_bucket_name b ∷ [])),
          )
          else (b, ok no_observation))
  observe_answer b (err e) = (b, err (observe_error (s3.status_code e) e))
  observe_answer b (panic p) = (b, panic p)

  unfoldable pub observe : Bucket → W → Bucket × Result ExternalObservation
  observe b w = observe_answer b (s3.bucket_exists (get_bucket_name b) w)

module _ {W : Type 0} where
  unfoldable pub set_lock : Context W → Context W × Result (Unit {0})
  set_lock c =
      let b = c.bucket in
      let annotations : List (String × String) = elim b.annotations [ none ↦ [] | some m ↦ m ] in
      (
        record c {
          bucket = record b { annotations = some (set_key lock_annotation "claimed" annotations) };
        },
        ok tt,
      )

  unfoldable pub emit_creation_event : Context W → Context W × Result (Unit {0})
  emit_creation_event c =
      let e : Event = record { reason = "Created"; message = "Bucket successfully created" } in
      (record c { events = c.events ++ e ∷ [] }, ok tt)

  unfoldable pub has_delete_all_policy : Context W → Bool
  has_delete_all_policy c = c.bucket.for_provider.bucket_deletion_policy == delete_all

  unfoldable pub emit_deletion_event : Context W → Context W × Result (Unit {0})
  emit_deletion_event c =
      let e : Event = record { reason = "Deleted"; message = "Bucket deleted" } in
      (record c { events = c.events ++ e ∷ [] }, ok tt)

-- The goroutine that lists: objects that could not be listed are skipped.
unfoldable pub listed_keys : List Listed → List String
listed_keys [] = []
listed_keys (object key ∷ ls) = key ∷ listed_keys ls
listed_keys (failed e ∷ ls) = listed_keys ls

abbrev is_no_lock_error : Error → Bool
is_no_lock_error (api e) = e.text == "Object Lock configuration does not exist for this bucket"
is_no_lock_error (msg s args) = s == "Object Lock configuration does not exist for this bucket"
is_no_lock_error (wrap s e) = false

-- The first object that RemoveObjects reports.
abbrev first_error : List (String × Error) → Result (Unit {0})
first_error [] = ok tt
first_error ((key, e) ∷ es) = err (wrap "object %q cannot be removed: %w" e)

module _ {W : Type 0} (s3 : S3 W) where
  -- An error of MakeBucket is forgiven if BucketExists then says that the bucket is there.
  abbrev pub forgive : Result Bool → Error → Result (Unit {0})
  forgive (ok true) e = ok tt
  forgive (ok false) e = err e
  forgive (err e') e = err e
  forgive (panic p) e = panic p

  abbrev pub made : String → W → Result (Unit {0}) → Result (Unit {0})
  made name w (ok u) = ok tt
  made name w (err e) = forgive (s3.bucket_exists name w) e
  made name w (panic p) = panic p

  unfoldable pub create_s3_bucket : Context W → Context W × Result (Unit {0})
  create_s3_bucket c =
      let name = get_bucket_name c.bucket in
      let (w, r) = s3.make_bucket name c.bucket.for_provider.zone c.world in
      (record c { world = w }, made name w r)

  -- The steps that follow the creation of the bucket.
  abbrev pub claim_steps : List (Step (Context W))
  claim_steps = new_step "set lock" set_lock ∷ new_step "emit event" emit_creation_event ∷ []

  abbrev pub create_steps : List (Step (Context W))
  create_steps = new_step "create bucket" create_s3_bucket ∷ claim_steps

  unfoldable pub create : Runner (Context W) → Bucket → W → Context W × Result (Unit {0})
  create r b w =
      let (c, result) = r.run create_steps (record { bucket = b; world = w; events = [] }) in
      (c, map_err (wrap "cannot provision bucket") result)

  unfoldable pub is_bucket_lock_enabled : String → W → Result Bool
  is_bucket_lock_enabled name w = elim (s3.object_lock_mode name w) [
    | ok mode ↦ ok mode
    | err e ↦ if is_no_lock_error e then ok false else err e
    | panic p ↦ panic p
  ]

  -- An error about the lock is logged, and the flag is false.
  unfoldable pub delete_all_objects : Context W → Context W × Result (Unit {0})
  unfolding listed_keys is_bucket_lock_enabled
  delete_all_objects c =
      let name = c.bucket.status.bucket_name in
      let keys = listed_keys (s3.list_objects name c.world) in
      let remove : Bool → Context W × Result (Unit {0}) = λ bypass.
        let (w, errors) = s3.remove_objects name keys bypass c.world in
        (record c { world = w }, first_error errors) in
      elim (is_bucket_lock_enabled name c.world) [
        | ok bypass ↦ remove bypass
        | err e ↦ remove false
        | panic p ↦ (c, panic p)
      ]

  unfoldable pub delete_s3_bucket : Context W → Context W × Result (Unit {0})
  delete_s3_bucket c =
      let (w, r) = s3.remove_bucket c.bucket.status.bucket_name c.world in
      (record c { world = w }, r)

  abbrev pub remove_steps : List (Step (Context W))
  remove_steps =
      new_step "delete bucket" delete_s3_bucket ∷ new_step "emit event" emit_deletion_event ∷ []

  abbrev pub delete_steps : List (Step (Context W))
  delete_steps =
      when_step has_delete_all_policy "delete all objects" delete_all_objects ∷ remove_steps

  unfoldable pub delete : Runner (Context W) → Bucket → W → Context W × Result (Unit {0})
  delete r b w =
      let (c, result) = r.run delete_steps (record { bucket = b; world = w; events = [] }) in
      (c, map_err (wrap "cannot deprovision bucket") result)

-- Update and Disconnect do nothing; the bucket and the remote side stay.
unfoldable pub update : {W : Type 0} → Bucket → W → (Bucket × W) × Result (Unit {0})
update b w = ((b, w), ok tt)

-- NoopClient.Observe, for a bucket that is deleted already.
unfoldable pub observe_noop : Bucket → Bucket × Result ExternalObservation
observe_noop b = (b, ok no_observation)

-- Create, Update and Delete of NoopClient.
unfoldable pub create_noop : {W : Type 0} → Bucket → W → (Bucket × W) × Result (Unit {0})
create_noop b w = ((b, w), ok tt)

unfoldable pub update_noop : {W : Type 0} → Bucket → W → (Bucket × W) × Result (Unit {0})
update_noop b w = ((b, w), ok tt)

unfoldable pub delete_noop : {W : Type 0} → Bucket → W → (Bucket × W) × Result (Unit {0})
delete_noop b w = ((b, w), ok tt)
