-- ===== src/Bucket/Observe.antt =====
-- When Observe reports a bucket.
use provider_exoscale.Prelude.{
  Bool, true, false, ◌≡◌, ◌↔◌, refl, Result, ok, err, panic, Bool-cases, inl, inr,
}
use provider_exoscale.Api.{Crossplane}
use provider_exoscale.Managed.{ExternalObservation}
use provider_exoscale.Bucket.{Bucket, get_bucket_name, S3}
use provider_exoscale.Bucket.Handlers.{has_lock, mark_available, observe, observe_answer}

-- A bucket that is reported to exist.
abbrev pub ReportsExisting : Result ExternalObservation → Type 0
ReportsExisting (ok o) = o.resource_exists ≡ true
ReportsExisting (err e) = ⊥
ReportsExisting (panic p) = ⊥

module _ {W : Type 0} (xp : Crossplane) (s3 : S3 W) (b : Bucket) where
  observe_answer_iff :
      (r : Result Bool)
      → ReportsExisting (observe_answer xp s3 b r).1 ↔ ((r ≡ ok true) × (has_lock b ≡ true))
  unfolding observe_answer
  observe_answer_iff (ok true) = elim (Bool-cases (has_lock b)) [
    | inl locked ↦ rw locked ((λ h. (refl, refl)), (λ h. refl))
    | inr free ↦ rw free ((λ h. absurd h), (λ (e, l). cc))
  ]
  observe_answer_iff (ok false) = elim (Bool-cases (has_lock b)) [
    | inl locked ↦ rw locked ((λ h. cc), (λ (e, l). cc))
    | inr free ↦ rw free ((λ h. cc), (λ (e, l). cc))
  ]
  observe_answer_iff (err e) = ((λ h. absurd h), (λ (h, l). cc))
  observe_answer_iff (panic p) = ((λ h. absurd h), (λ (h, l). cc))

  -- Observe reports a bucket exactly if S3 says that it exists and the resource carries the lock
  -- annotation.
  pub observe-ReportsExisting_iff :
      (w : W)
      → ReportsExisting (observe xp s3 b w).1
        ↔ ((s3.bucket_exists (get_bucket_name b) w ≡ ok true) × (has_lock b ≡ true))
  unfolding observe
  observe-ReportsExisting_iff w = observe_answer_iff (s3.bucket_exists (get_bucket_name b) w)

  observe_found :
      (w : W)
      → s3.bucket_exists (get_bucket_name b) w ≡ ok true
      → has_lock b ≡ true
      → (observe xp s3 b w).0 ≡ mark_available xp s3 b
  unfolding observe observe_answer
  observe_found w e l = rw e (rw l refl)

  -- A bucket that is reported has its name in the status, and the condition Available is set; the
  -- specification stays.
  pub observe_reported :
      (w : W)
      → ReportsExisting (observe xp s3 b w).1
      → let b' = (observe xp s3 b w).0 in
        (b'.status.bucket_name ≡ get_bucket_name b)
        × (b'.status.conditions ≡ xp.set_conditions b.status.conditions xp.available)
        × (b'.for_provider ≡ b.for_provider)
  unfolding mark_available
  observe_reported w h =
      let (e, l) = (observe-ReportsExisting_iff w).0 h in
      rw (observe_found w e l) (refl, refl, refl)
