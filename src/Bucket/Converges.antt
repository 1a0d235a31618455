-- ===== src/Bucket/Converges.antt =====
-- A bucket that Create has made is observed, and one that Delete has removed is not: observe.go, create.go
-- and delete.go of operator/bucketcontroller together.
use provider_exoscale.Prelude.{
  String, Error, Bool, true, false, ◌≡◌, refl, sym, ap, ◌∙◌, [], ◌∷◌, Result, ok, err, panic, wrap,
  map_err-eq-ok, Bool-cases, arith, inl, inr,
}
use provider_exoscale.Api.{Crossplane}
use provider_exoscale.Managed.{ExternalObservation, no_observation}
use provider_exoscale.Pipeline.{
  Runner, RunsInOrder, new_step, when_step, run-skip, run-last, run_succeeds,
}
use provider_exoscale.Bucket.{Bucket, get_bucket_name, S3, Context}
use provider_exoscale.Bucket.Handlers.{
  has_lock, observe, observe_answer, set_lock, emit_creation_event, forgive, made, create_s3_bucket,
  create, claim_steps, has_delete_all_policy, delete_all_objects, is_bucket_lock_enabled,
  delete_s3_bucket, emit_deletion_event, remove_steps, delete,
}
use provider_exoscale.Bucket.Deletion.{has_lock-set_lock, claims, first}

abbrev pub exists_up_to_date : ExternalObservation
exists_up_to_date = record {
  resource_exists = true;
  resource_up_to_date = true;
  connection_details = [];
  diff = "";
}

module _ {W : Type 0} (xp : Crossplane) (s3 : S3 W) (r : Runner (Context W)) (laws : RunsInOrder r)
    (b : Bucket) (w : W) where
  observe_both :
      (c : Bucket) (v : W)
      → s3.bucket_exists (get_bucket_name c) v ≡ ok true
      → has_lock c ≡ true
      → (observe xp s3 c v).1 ≡ ok exists_up_to_date
  unfolding observe observe_answer
  observe_both c v there locked = rw there (rw locked refl)

  observe_neither :
      (c : Bucket) (v : W)
      → s3.bucket_exists (get_bucket_name c) v ≡ ok false
      → (observe xp s3 c v).1 ≡ ok no_observation
  unfolding observe observe_answer
  observe_neither c v gone = elim (Bool-cases (has_lock c)) [
    | inl locked ↦ rw gone (rw locked refl)
    | inr free ↦ rw gone (rw free refl)
  ]

  forgiven_there :
      (e : Error) (answer : Result Bool) → forgive s3 answer e ≡ ok tt → answer ≡ ok true
  forgiven_there e (ok true) h = refl
  forgiven_there e (ok false) h = cc
  forgiven_there e (err e') h = cc
  forgiven_there e (panic p) h = cc

  -- After the first step of Create the bucket is there.
  made_there :
      (name : String) (v : W) (o : Result (Unit {0}))
      → (o ≡ ok tt → s3.bucket_exists name v ≡ ok true)
      → made s3 name v o ≡ ok tt
      → s3.bucket_exists name v ≡ ok true
  made_there name v (ok u) there h = there refl
  made_there name v (err e) there h = forgiven_there e (s3.bucket_exists name v) h
  made_there name v (panic p) there h = cc

  -- If Create succeeds, Observe reports the resource that it leaves as existing and up to date: for an
  -- S3 service that has a bucket once MakeBucket for it has succeeded.
  pub created_bucket_observed :
      ((name zone : String) (v : W)
        → (s3.make_bucket name zone v).1 ≡ ok tt
        → s3.bucket_exists name (s3.make_bucket name zone v).0 ≡ ok true)
      → (create s3 r b w).1 ≡ ok tt
      → let c = (create s3 r b w).0 in (observe xp s3 c.bucket c.world).1 ≡ ok exists_up_to_date
  unfolding create create_s3_bucket set_lock emit_creation_event get_bucket_name
  created_bucket_observed makes created =
      let c = first s3 r laws b w in
      let (done, ran) =
        run_succeeds r laws (new_step "create bucket" (create_s3_bucket s3)) (claim_steps s3) c refl
          (map_err-eq-ok (wrap "cannot provision bucket") _ tt created) in
      let left = ran ∙ claims s3 r laws b w (create_s3_bucket s3 c).0 in
      let name = get_bucket_name b in
      let there =
        made_there name (s3.make_bucket name b.for_provider.zone w).0
          (s3.make_bucket name b.for_provider.zone w).1 (makes name b.for_provider.zone w) done in
      ap (λ o. (observe xp s3 o.0.bucket o.0.world).1) left
      ∙ observe_both (set_lock (create_s3_bucket s3 c).0).0.bucket _ there
          (has_lock-set_lock (create_s3_bucket s3 c).0)

  -- What is left after the steps that remove the bucket.
  removed :
      (c : Context W)
      → (r.run (remove_steps s3) c).1 ≡ ok tt
      → ((s3.remove_bucket c.bucket.status.bucket_name c.world).1 ≡ ok tt)
        × ((r.run (remove_steps s3) c).0.world
            ≡ (s3.remove_bucket c.bucket.status.bucket_name c.world).0)
        × ((r.run (remove_steps s3) c).0.bucket ≡ c.bucket)
  unfolding delete_s3_bucket emit_deletion_event
  removed c h =
      let (done, ran) =
        run_succeeds r laws (new_step "delete bucket" (delete_s3_bucket s3))
          (new_step "emit event" emit_deletion_event ∷ []) c refl h in
      let left = ran ∙ run-last r laws (new_step "emit event" emit_deletion_event) _ refl refl in
      (done, ap (λ o. o.0.world) left, ap (λ o. o.0.bucket) left)

  gone_after :
      (c : Context W)
      → c.bucket ≡ b
      → ((name : String) (v : W)
          → (s3.remove_bucket name v).1 ≡ ok tt
          → s3.bucket_exists name (s3.remove_bucket name v).0 ≡ ok false)
      → b.status.bucket_name ≡ get_bucket_name b
      → (r.run (remove_steps s3) c).1 ≡ ok tt
      → let d = (r.run (remove_steps s3) c).0 in
        (observe xp s3 d.bucket d.world).1 ≡ ok no_observation
  gone_after c kept removes named h =
      let (done, world, bucket) = removed c h in
      let d = (r.run (remove_steps s3) c).0 in
      let name = c.bucket.status.bucket_name in
      let same : name ≡ get_bucket_name d.bucket =
        ap (λ x. x.status.bucket_name) kept ∙ named ∙ sym (ap get_bucket_name (bucket ∙ kept)) in
      observe_neither d.bucket d.world (
        ap (λ n. s3.bucket_exists n d.world) (sym same)
        ∙ ap (s3.bucket_exists name) world
        ∙ removes name c.world done)

  delete_all_objects-bucket : (c : Context W) → (delete_all_objects s3 c).0.bucket ≡ c.bucket
  unfolding delete_all_objects is_bucket_lock_enabled
  delete_all_objects-bucket c = ground arith

  absent_after :
      (o d : Context W × Result (Unit {0}))
      → o ≡ d
      → (observe xp s3 d.0.bucket d.0.world).1 ≡ ok no_observation
      → (observe xp s3 o.0.bucket o.0.world).1 ≡ ok no_observation
  absent_after o d e g = ap (λ o. (observe xp s3 o.0.bucket o.0.world).1) e ∙ g

  -- If Delete succeeds, Observe reports that there is no bucket for the resource that it leaves: for a
  -- resource whose status names the bucket of its specification, and an S3 service that has no bucket
  -- once RemoveBucket for it has succeeded. The objects may have been removed before or not.
  pub deleted_bucket_absent :
      ((name : String) (v : W)
        → (s3.remove_bucket name v).1 ≡ ok tt
        → s3.bucket_exists name (s3.remove_bucket name v).0 ≡ ok false)
      → b.status.bucket_name ≡ get_bucket_name b
      → (delete s3 r b w).1 ≡ ok tt
      → let c = (delete s3 r b w).0 in (observe xp s3 c.bucket c.world).1 ≡ ok no_observation
  unfolding delete
  deleted_bucket_absent removes named deleted =
      let c = first s3 r laws b w in
      let h = map_err-eq-ok (wrap "cannot deprovision bucket") _ tt deleted in
      let emptying = when_step has_delete_all_policy "delete all objects" (delete_all_objects s3) in
      elim (Bool-cases (has_delete_all_policy c)) [
        | inl all ↦
            let (done, ran) = run_succeeds r laws emptying (remove_steps s3) c all h in
            absent_after _ _ ran (
              gone_after (delete_all_objects s3 c).0 (delete_all_objects-bucket c) removes named
                (ap (λ o. o.1) (sym ran) ∙ h))
        | inr kept ↦
            let ran = run-skip r laws emptying (remove_steps s3) c kept in
            absent_after _ _ ran (gone_after c refl removes named (ap (λ o. o.1) (sym ran) ∙ h))
      ]
