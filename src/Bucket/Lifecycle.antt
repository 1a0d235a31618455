-- ===== src/Bucket/Lifecycle.antt =====
-- The name and the zone of a bucket over its life: what the webhook admits, and what the controller
-- does between two admissions.
use provider_exoscale.Prelude.{
  Bool, true, false, ◌≡◌, ◌≢◌, ◌↔◌, ◌⊎◌, inl, inr, refl, ap, ◌∙◌, sym, Result, ok, err, panic,
  arith, eq_iff, Bool-cases,
}
use provider_exoscale.Api.{Crossplane}
use provider_exoscale.Bucket.{Bucket, get_bucket_name, S3, Context}
use provider_exoscale.Bucket.Handlers.{observe, observe_answer, mark_available, has_lock, set_lock}
use provider_exoscale.Bucket.Webhook.{validate_update, has_provider_config}

-- The webhook admits an update exactly if the new resource names a provider configuration and, once
-- a bucket has been created, keeps its name and its zone.
pub validate_update_iff :
    (old_bucket new_bucket : Bucket)
    → (validate_update old_bucket new_bucket ≡ ok tt) ↔ (
        (has_provider_config new_bucket.provider_config ≡ true)
        × ((old_bucket.status.bucket_name ≡ "")
            ⊎ ((get_bucket_name new_bucket ≡ old_bucket.status.bucket_name)
                × (new_bucket.for_provider.zone ≡ old_bucket.for_provider.zone))))
unfolding validate_update
validate_update_iff o n = ground (
  arith,
  eq_iff o.status.bucket_name "",
  eq_iff (get_bucket_name n) o.status.bucket_name,
  eq_iff n.for_provider.zone o.for_provider.zone,
)

module _ {W : Type 0} (xp : Crossplane) (s3 : S3 W) where
  -- A resource changes by Observe, at any state of the remote side, by an admitted update, which
  -- cannot touch the status, and by the lock annotation that Create sets.
  pub data Step : Bucket → Bucket → Type 0 where
    observed : (b : Bucket) (w : W) → Step b (observe xp s3 b w).0
    updated : (b b' : Bucket) → validate_update b b' ≡ ok tt → b'.status ≡ b.status → Step b b'
    claimed : (c : Context W) → Step c.bucket (set_lock c).0.bucket

  pub data Reach (b : Bucket) : Bucket → Type 0 where
    here : Reach b b
    next : {c d : Bucket} → Reach b c → Step c d → Reach b d

  -- The status has no bucket, or the one that the specification names.
  abbrev pub Named : Bucket → Type 0
  Named b = (b.status.bucket_name ≡ "") ⊎ (b.status.bucket_name ≡ get_bucket_name b)

  -- What Observe does to the resource: nothing, or what `mark_available` does.
  answer_cases :
      (b : Bucket) (r : Result Bool)
      → ((observe_answer xp s3 b r).0 ≡ b) ⊎ ((observe_answer xp s3 b r).0 ≡ mark_available xp s3 b)
  unfolding observe_answer
  answer_cases b (ok true) = elim (Bool-cases (has_lock b)) [
    | inl q ↦ inr (rw q refl)
    | inr q ↦ inl (rw q refl)
  ]
  answer_cases b (ok false) = elim (Bool-cases (has_lock b)) [
    | inl q ↦ inl (rw q refl)
    | inr q ↦ inl (rw q refl)
  ]
  answer_cases b (err e) = inl refl
  answer_cases b (panic p) = inl refl

  mark_available-Named : (b : Bucket) → Named (mark_available xp s3 b)
  unfolding mark_available get_bucket_name
  mark_available-Named b = inr refl

  Step-Named : {b c : Bucket} → Step b c → Named b → Named c
  unfolding observe set_lock get_bucket_name
  Step-Named (observed b w) n = elim (answer_cases b (s3.bucket_exists (get_bucket_name b) w)) [
    | inl same ↦ rw same n
    | inr marked ↦ rw marked (mark_available-Named b)
  ]
  Step-Named (updated b b' ok_update kept) n = elim ((validate_update_iff b b').0 ok_update).1 [
    | inl empty ↦ inl (ap (λ s. s.bucket_name) kept ∙ empty)
    | inr (same, zone) ↦ inr (ap (λ s. s.bucket_name) kept ∙ sym same)
  ]
  Step-Named (claimed c) n = n

  -- If the status names no bucket, or the one that the specification names, this stays so, whatever
  -- the controller observes and whatever updates are admitted.
  pub Reach-Named : {b c : Bucket} → Reach b c → Named b → Named c
  Reach-Named here n = n
  Reach-Named (next r st) n = Step-Named st (Reach-Named r n)

  -- The bucket of the status and the zone stay.
  abbrev pub SameBucket : Bucket → Bucket → Type 0
  SameBucket b c =
      (c.status.bucket_name ≡ b.status.bucket_name) × (c.for_provider.zone ≡ b.for_provider.zone)

  marked-SameBucket :
      (b : Bucket)
      → b.status.bucket_name ≡ get_bucket_name b
      → SameBucket b (mark_available xp s3 b)
  unfolding mark_available
  marked-SameBucket b e = (sym e, refl)

  Step-SameBucket : {b c : Bucket} → Step b c → Named b → b.status.bucket_name ≢ "" → SameBucket b c
  unfolding observe set_lock
  Step-SameBucket (claimed c) n set = (refl, refl)
  Step-SameBucket st (inl empty) set = absurd (set empty)
  Step-SameBucket (observed b w) (inr e) set =
      elim (answer_cases b (s3.bucket_exists (get_bucket_name b) w)) [
        | inl same ↦ rw same (refl, refl)
        | inr marked ↦ rw marked (marked-SameBucket b e)
      ]
  Step-SameBucket (updated b b' ok_update kept) (inr e) set =
      elim ((validate_update_iff b b').0 ok_update).1 [
        | inl empty ↦ absurd (set empty)
        | inr (same, zone) ↦ (ap (λ s. s.bucket_name) kept, zone)
      ]

  -- For a resource whose status names the bucket that its specification names: over any sequence of
  -- Observe, of admitted updates, which do not touch the status, and of settings of the lock, neither
  -- the name of the bucket in the status nor the zone changes.
  pub Reach-SameBucket :
      {b c : Bucket} → Reach b c → Named b → b.status.bucket_name ≢ "" → SameBucket b c
  Reach-SameBucket here n set = (refl, refl)
  Reach-SameBucket (next r st) n set =
      let (name, zone) = Reach-SameBucket r n set in
      let (name', zone') = Step-SameBucket st (Reach-Named r n) (λ empty. set (sym name ∙ empty)) in
      (name' ∙ name, zone' ∙ zone)
