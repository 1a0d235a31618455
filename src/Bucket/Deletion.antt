-- ===== src/Bucket/Deletion.antt =====
-- What Create and Delete of a bucket do to the remote side.
use provider_exoscale.Prelude.{
  String, true, false, ◌≡◌, ◌≢◌, refl, List, [], ◌∷◌, Result, ok, err, panic, Error, none, some, ap,
  ◌∙◌, sym, map_err, wrap, Fault, eq_refl, inl, inr, Result-cases, arith,
}
use provider_exoscale.Pipeline.{
  Runner, RunsInOrder, Step, new_step, run-next, run-last, run-fail, run-panic, run-skip,
}
use provider_exoscale.Bucket.{Bucket, S3, Context}
use provider_exoscale.Bucket.Handlers.{
  has_lock, has_key, set_key, lock_annotation, create, create_s3_bucket, set_lock,
  emit_creation_event, delete, has_delete_all_policy, delete_all_objects, remove_steps, claim_steps,
  delete_s3_bucket, emit_deletion_event,
}

has_key-set_key : (k v : String) (m : List (String × String)) → has_key k (set_key k v m) ≡ true
has_key-set_key k v [] = rw (eq_refl k)
has_key-set_key k v ((j, w) ∷ m) = ground (arith, eq_refl k, has_key-set_key k v m)

pub has_lock-set_lock : {W : Type 0} (c : Context W) → has_lock (set_lock c).0.bucket ≡ true
unfolding has_lock set_lock
has_lock-set_lock c =
    has_key-set_key lock_annotation "claimed" (elim c.bucket.annotations [ none ↦ [] | some m ↦ m ])

err-ne-ok : {e : Error} → ◌≢◌ {A = Result (Unit {0})} (err e) (ok tt)
err-ne-ok h = cc

panic-ne-ok : {p : Fault} → ◌≢◌ {A = Result (Unit {0})} (panic p) (ok tt)
panic-ne-ok h = cc

module _ {W : Type 0} (s3 : S3 W) (r : Runner (Context W)) (laws : RunsInOrder r) (b : Bucket)
    (w : W) where
  abbrev pub first : Context W
  first = record { bucket = b; world = w; events = [] }

  abbrev remove_step : Step (Context W)
  remove_step = new_step "delete bucket" (delete_s3_bucket s3)

  abbrev emit_deletion_step : Step (Context W)
  emit_deletion_step = new_step "emit event" emit_deletion_event

  run-remove_steps :
      (c : Context W)
      → (r.run (remove_steps s3) c).0.world
        ≡ (s3.remove_bucket c.bucket.status.bucket_name c.world).0
  unfolding delete_s3_bucket emit_deletion_event
  run-remove_steps c =
      elim (Result-cases (s3.remove_bucket c.bucket.status.bucket_name c.world).1) [
        | inl (u, done) ↦
            ap (λ o. o.0.world)
              (run-next r laws remove_step (emit_deletion_step ∷ []) c refl done
                ∙ run-last r laws emit_deletion_step _ refl refl)
        | inr (inl (e, failed)) ↦
            ap (λ o. o.0.world)
              (run-fail r laws remove_step (emit_deletion_step ∷ []) c e refl failed)
        | inr (inr (p, failed)) ↦
            ap (λ o. o.0.world)
              (run-panic r laws remove_step (emit_deletion_step ∷ []) c p refl failed)
      ]

  -- Without the policy DeleteAll, all that Delete does to the remote side is the one request that
  -- removes the bucket itself.
  pub delete_keeps_objects :
      has_delete_all_policy (record { bucket = b; world = w; events = [] }) ≡ false
      → (delete s3 r b w).0.world ≡ (s3.remove_bucket b.status.bucket_name w).0
  unfolding delete
  delete_keeps_objects h =
      ap (λ o. o.0.world) (run-skip r laws _ (remove_steps s3) first h) ∙ run-remove_steps first

  -- With the policy DeleteAll, an error of the removal of the objects ends Delete: the resource,
  -- the remote side and the events are as that step has left them.
  pub delete_stops :
      (e : Error)
      → has_delete_all_policy (record { bucket = b; world = w; events = [] }) ≡ true
      → (delete_all_objects s3 (record { bucket = b; world = w; events = [] })).1 ≡ err e
      → (delete s3 r b w).0
        ≡ (delete_all_objects s3 (record { bucket = b; world = w; events = [] })).0
  unfolding delete
  delete_stops e h failed = ap (λ o. o.0) (run-fail r laws _ (remove_steps s3) first e h failed)

  pub claims :
      (c : Context W) → r.run (claim_steps s3) c ≡ ((emit_creation_event (set_lock c).0).0, ok tt)
  unfolding set_lock emit_creation_event
  claims c =
      run-next r laws (new_step "set lock" set_lock)
        (new_step "emit event" emit_creation_event ∷ []) c refl refl
      ∙ run-last r laws (new_step "emit event" emit_creation_event) _ refl refl

  abbrev create_step : Step (Context W)
  create_step = new_step "create bucket" (create_s3_bucket s3)

  -- If Create succeeds, the bucket was made or was found to be there already, and the resource
  -- carries the lock annotation afterwards.
  pub create-has_lock :
      (create s3 r b w).1 ≡ ok tt
      → (has_lock (create s3 r b w).0.bucket ≡ true)
        × ((create_s3_bucket s3 (record { bucket = b; world = w; events = [] })).1 ≡ ok tt)
  unfolding create emit_creation_event
  create-has_lock h = elim (Result-cases (create_s3_bucket s3 first).1) [
    | inl (u, done) ↦
        let ran =
          run-next r laws create_step (claim_steps s3) first refl done
          ∙ claims (create_s3_bucket s3 first).0 in
        (ap (λ o. has_lock o.0.bucket) ran ∙ has_lock-set_lock (create_s3_bucket s3 first).0, done)
    | inr (inl (e, failed)) ↦ absurd (
        err-ne-ok (
          sym (
            ap (λ o. map_err (wrap "cannot provision bucket") o.1)
              (run-fail r laws create_step (claim_steps s3) first e refl failed))
          ∙ h))
    | inr (inr (p, failed)) ↦ absurd (
        panic-ne-ok (
          sym (
            ap (λ o. map_err (wrap "cannot provision bucket") o.1)
              (run-panic r laws create_step (claim_steps s3) first p refl failed))
          ∙ h))
  ]

  -- Where the bucket could not be made, Create leaves the resource as it was and reports no event.
  pub create_refused :
      (e : Error)
      → (create_s3_bucket s3 (record { bucket = b; world = w; events = [] })).1 ≡ err e
      → ((create s3 r b w).0.bucket ≡ b) × ((create s3 r b w).0.events ≡ [])
  unfolding create create_s3_bucket
  create_refused e failed =
      let ran = run-fail r laws create_step (claim_steps s3) first e refl failed in
      (ap (λ o. o.0.bucket) ran, ap (λ o. o.0.events) ran)
