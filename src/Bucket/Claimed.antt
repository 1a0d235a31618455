-- ===== src/Bucket/Claimed.antt =====
-- Whose bucket Delete removes: the name in the status, over observe.go, create.go and webhook.go of
-- operator/bucketcontroller.
use provider_exoscale.Prelude.{
  String, Bool, true, false, ◌≡◌, ◌≢◌, ◌⊎◌, inl, inr, refl, sym, ap, ◌∙◌, List, [], ◌∷◌, Result, ok,
  err, panic, map_err, wrap, Result-cases, Bool-cases, ◌==◌,
}
use mathlib.Core.Path.{subst}
use mathlib.Core.List.{Memᴰ}
use provider_exoscale.Api.{Crossplane}
use provider_exoscale.Pipeline.{Runner, RunsInOrder, new_step, run-next, run-fail, run-panic}
use provider_exoscale.Bucket.{Bucket, get_bucket_name, delete_all, delete_if_empty, S3, Context}
use provider_exoscale.Bucket.Handlers.{
  has_lock, observe, observe_answer, mark_available, create_s3_bucket, set_lock,
  emit_creation_event, claim_steps, create, delete, has_delete_all_policy,
}
use provider_exoscale.Bucket.Webhook.{validate_update, has_provider_config}
use provider_exoscale.Bucket.Converges.{exists_up_to_date}
use provider_exoscale.Bucket.Lifecycle.{validate_update_iff}
use provider_exoscale.Bucket.Deletion.{claims, first, delete_keeps_objects}

module _ {W : Type 0} (xp : Crossplane) (s3 : S3 W) (r : Runner (Context W))
    (laws : RunsInOrder r) where
  -- A resource changes by Observe and by Create, at any state of the remote side, and by an update that
  -- the webhook admits, which cannot touch the status. An update that leaves the lock annotation on the
  -- resource has found it there, and it does not change the name while the status has none. The lists
  -- are the names for which Create has succeeded, before the step and after it.
  pub data Step : List String → Bucket → List String → Bucket → Type 0 where
    observed : (ns : List String) (b : Bucket) (w : W) → Step ns b ns (observe xp s3 b w).0
    made :
        (ns : List String) (b : Bucket) (w : W)
        → (create s3 r b w).1 ≡ ok tt
        → Step ns b (get_bucket_name b ∷ ns) (create s3 r b w).0.bucket
    not_made :
        (ns : List String) (b : Bucket) (w : W)
        → (create s3 r b w).1 ≢ ok tt
        → Step ns b ns (create s3 r b w).0.bucket
    updated :
        (ns : List String) (b b' : Bucket)
        → validate_update b b' ≡ ok tt
        → b'.status ≡ b.status
        → (has_lock b' ≡ true → has_lock b ≡ true)
        → (has_lock b' ≡ true → b.status.bucket_name ≡ "" → get_bucket_name b ≡ get_bucket_name b')
        → Step ns b ns b'

  pub data Reach (ns : List String) (b : Bucket) : List String → Bucket → Type 0 where
    here : Reach ns b ns b
    next :
        {ns' ns'' : List String} {c d : Bucket}
        → Reach ns b ns' c
        → Step ns' c ns'' d
        → Reach ns b ns'' d

  -- The name of a resource with the lock is one of the list, and the status names none or one of it.
  abbrev pub Claimed : List String → Bucket → Type 0
  Claimed ns b =
      (has_lock b ≡ true → Memᴰ (get_bucket_name b) ns)
      × ((b.status.bucket_name ≡ "") ⊎ Memᴰ b.status.bucket_name ns)

  answer-Claimed :
      (ns : List String) (b : Bucket) (o : Result Bool)
      → Claimed ns b
      → Claimed ns (observe_answer xp s3 b o).0
  unfolding observe_answer mark_available has_lock get_bucket_name
  answer-Claimed ns b (ok true) (named, c) = elim (Bool-cases (has_lock b)) [
    | inl locked ↦ rw locked (named, inr (named locked))
    | inr free ↦ rw free (named, c)
  ]
  answer-Claimed ns b (ok false) c = elim (Bool-cases (has_lock b)) [
    | inl locked ↦ rw locked c
    | inr free ↦ rw free c
  ]
  answer-Claimed ns b (err e) c = c
  answer-Claimed ns b (panic p) c = c

  -- Create leaves the resource as it was, or succeeds and leaves it with the lock alone changed.
  create_cases :
      (b : Bucket) (w : W)
      → ((create s3 r b w).0.bucket ≡ b)
        ⊎ (((create s3 r b w).1 ≡ ok tt)
            × ((create s3 r b w).0.bucket ≡ (set_lock (first s3 r laws b w)).0.bucket))
  unfolding create create_s3_bucket emit_creation_event set_lock
  create_cases b w =
      let c = first s3 r laws b w in
      let make = new_step "create bucket" (create_s3_bucket s3) in
      elim (Result-cases (create_s3_bucket s3 c).1) [
        | inl (u, done) ↦
            let ran =
              run-next r laws make (claim_steps s3) c refl done
              ∙ claims s3 r laws b w (create_s3_bucket s3 c).0 in
            inr
              (ap (λ o. map_err (wrap "cannot provision bucket") o.1) ran, ap (λ o. o.0.bucket) ran)
        | inr (inl (e, failed)) ↦
            inl (ap (λ o. o.0.bucket) (run-fail r laws make (claim_steps s3) c e refl failed))
        | inr (inr (p, failed)) ↦
            inl (ap (λ o. o.0.bucket) (run-panic r laws make (claim_steps s3) c p refl failed))
      ]

  more : (a : String) (ns : List String) (b : Bucket) → Claimed ns b → Claimed (a ∷ ns) b
  more a ns b (named, inl none_yet) = ((λ locked. Memᴰ.tail (named locked)), inl none_yet)
  more a ns b (named, inr m) = ((λ locked. Memᴰ.tail (named locked)), inr (Memᴰ.tail m))

  locked-Claimed :
      (ns : List String) (b : Bucket) (w : W)
      → Claimed ns b
      → Claimed (get_bucket_name b ∷ ns) (set_lock (first s3 r laws b w)).0.bucket
  unfolding set_lock get_bucket_name
  locked-Claimed ns b w claimed =
      ((λ locked. Memᴰ.head refl), (more (get_bucket_name b) ns b claimed).1)

  Step-Claimed :
      {ns : List String} {b : Bucket} {ns' : List String} {c : Bucket}
      → Step ns b ns' c
      → Claimed ns b
      → Claimed ns' c
  unfolding observe
  Step-Claimed (observed ns b w) claimed =
      answer-Claimed ns b (s3.bucket_exists (get_bucket_name b) w) claimed
  Step-Claimed (made ns b w done) claimed = elim (create_cases b w) [
    | inl same ↦ subst (Claimed _) (sym same) (more (get_bucket_name b) ns b claimed)
    | inr (ran, locked) ↦ subst (Claimed _) (sym locked) (locked-Claimed ns b w claimed)
  ]
  Step-Claimed (not_made ns b w failed) claimed = elim (create_cases b w) [
    | inl same ↦ subst (Claimed ns) (sym same) claimed
    | inr (ran, locked) ↦ absurd (failed ran)
  ]
  Step-Claimed (updated ns b b' admitted kept found same) (named, c) = (
    (λ locked. elim ((validate_update_iff b b').0 admitted).1 [
      | inl none_yet ↦ subst (λ n. Memᴰ n ns) (same locked none_yet) (named (found locked))
      | inr (name, zone) ↦ elim c [
        | inl none_yet ↦ subst (λ n. Memᴰ n ns) (same locked none_yet) (named (found locked))
        | inr m ↦ subst (λ n. Memᴰ n ns) (sym name) m
      ]
    ]),
    subst (λ s. (s.bucket_name ≡ "") ⊎ Memᴰ s.bucket_name ns) (sym kept) c,
  )

  -- Over any sequence of Observe, of Create, whether it succeeds or not, and of admitted updates that
  -- add no lock annotation and, while the status names no bucket, do not rename a resource that keeps
  -- the annotation: the name in the status, which is that of the bucket that Delete removes, is empty or
  -- one for which a Create of this resource has succeeded, and so is the name of a resource with the
  -- lock, if both hold at first.
  pub Reach-Claimed :
      {ns : List String} {b : Bucket} {ns' : List String} {c : Bucket}
      → Reach ns b ns' c
      → Claimed ns b
      → Claimed ns' c
  Reach-Claimed here claimed = claimed
  Reach-Claimed (next before st) claimed = Step-Claimed st (Reach-Claimed before claimed)

  -- Where the status names no bucket yet, the webhook admits any new name for a resource that has a
  -- provider configuration. If the resource carries the lock and a
  -- bucket of the new name exists, whoever made it, the next Observe reports that bucket as the
  -- resource's own, with its name in the status, and Delete under the policy DeleteIfEmpty asks S3 to
  -- remove it.
  pub renamed_bucket_removed :
      (b b' : Bucket) (w w' : W)
      → b.status.bucket_name ≡ ""
      → has_lock b' ≡ true
      → has_provider_config b'.provider_config ≡ true
      → b'.for_provider.bucket_deletion_policy ≡ delete_if_empty
      → s3.bucket_exists (get_bucket_name b') w ≡ ok true
      → (validate_update b b' ≡ ok tt)
        × ((observe xp s3 b' w).0.status.bucket_name ≡ get_bucket_name b')
        × ((observe xp s3 b' w).1 ≡ ok exists_up_to_date)
        × ((delete s3 r (observe xp s3 b' w).0 w').0.world
            ≡ (s3.remove_bucket (get_bucket_name b') w').0)
  unfolding observe observe_answer mark_available has_delete_all_policy
  renamed_bucket_removed b b' w w' none_yet locked config policy exists =
      let seen : observe xp s3 b' w ≡ (mark_available xp s3 b', ok exists_up_to_date) =
        rw (exists, locked) refl in
      let keeps : has_delete_all_policy
            (record { bucket = mark_available xp s3 b'; world = w'; events = [] })
          ≡ false =
        ap (λ p. p == delete_all) policy in
      (
        (validate_update_iff b b').1 (config, inl none_yet),
        ap (λ o. o.0.status.bucket_name) seen,
        ap (λ o. o.1) seen,
        ap (λ o. (delete s3 r o.0 w').0.world) seen
            ∙ delete_keeps_objects s3 r laws (mark_available xp s3 b') w' keeps,
      )
