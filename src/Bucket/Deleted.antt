-- ===== src/Bucket/Deleted.antt =====
-- Which buckets get the client that does nothing: operator/bucketcontroller, connector.go and noop.go.
use provider_exoscale.Prelude.{
  String, true, ◌≡◌, ◌≢◌, ◌↔◌, refl, ap, ◌∙◌, List, Option, none, some, Result, ok, err, panic,
  ◌>>=◌, eq_iff, Bool-cases, inl, inr, arith,
}
use provider_exoscale.Api.{Condition, Crossplane, find_status_condition, CaseFold}
use provider_exoscale.Bucket.{Bucket, get_provider_config_name}
use provider_exoscale.Bucket.Connect.{
  ParsedUrl, ClientOptions, ExternalClient, noop_client, provisioning, is_bucket_already_deleted,
  deleted_conditions, both_found, connect,
}

-- The first condition of that type has that status and that reason.
abbrev pub HasCondition : List Condition → String → String → String → Type 0
HasCondition cs type status reason =
    (c : Condition) × (find_status_condition cs type ≡ some c)
    × (c.status ≡ status)
    × (c.reason ≡ reason)

module _ (xp : Crossplane) where
  deleted_conditions_iff :
      (ready sync : Condition)
      → (deleted_conditions xp ready sync ≡ true) ↔ (
          (ready.status ≡ xp.condition_false)
          × (ready.reason ≡ xp.reason_deleting)
          × (sync.status ≡ xp.condition_true)
          × (sync.reason ≡ xp.reason_reconcile_success))
  deleted_conditions_iff ready sync = grind (
    arith,
    eq_iff ready.status xp.condition_false,
    eq_iff ready.reason xp.reason_deleting,
    eq_iff sync.status xp.condition_true,
    eq_iff sync.reason xp.reason_reconcile_success,
  )

  both_found_iff :
      (ready sync : Option Condition)
      → (both_found xp ready sync ≡ true) ↔ (
          ((c : Condition) × (ready ≡ some c)
            × (c.status ≡ xp.condition_false)
            × (c.reason ≡ xp.reason_deleting))
          × ((c : Condition) × (sync ≡ some c)
              × (c.status ≡ xp.condition_true)
              × (c.reason ≡ xp.reason_reconcile_success)))
  both_found_iff (some r) (some s) = (
    (λ h.
        let (a, b, c, d) = (deleted_conditions_iff r s).0 h in ((r, refl, a, b), (s, refl, c, d))),
    (λ ((r', e, a, b), (s', f, c, d)).
        ap (λ o. both_found xp o (some s)) e
        ∙ ap (λ o. both_found xp (some r') o) f
        ∙ (deleted_conditions_iff r' s').1 (a, b, c, d)),
  )
  both_found_iff none s = ((λ h. cc), (λ ((r, e, g, h), t). cc))
  both_found_iff (some r) none = ((λ h. cc), (λ (t, (s, e, g, h)). cc))

  is_bucket_already_deleted_iff :
      (b : Bucket)
      → (is_bucket_already_deleted xp b ≡ true) ↔ (
          HasCondition b.status.conditions xp.type_ready xp.condition_false xp.reason_deleting
          × HasCondition b.status.conditions xp.type_synced xp.condition_true
              xp.reason_reconcile_success)
  unfolding is_bucket_already_deleted
  is_bucket_already_deleted_iff b =
      both_found_iff (find_status_condition b.status.conditions xp.type_ready)
        (find_status_condition b.status.conditions xp.type_synced)

module _ {C : Type 0} where
  provisioned-ne-noop_client :
      (r : Result C)
      → ◌≢◌ {A = Result (ExternalClient C)} (r >>= λ mc. ok (provisioning mc)) (ok noop_client)
  provisioned-ne-noop_client (ok mc) h = cc
  provisioned-ne-noop_client (err e) h = cc
  provisioned-ne-noop_client (panic p) h = cc

  opened-ne-noop_client :
      {K : Type 0} (r : Result K) (f : K → Result C)
      → ◌≢◌ {A = Result (ExternalClient C)}
          (r >>= λ keys. f keys >>= λ mc. ok (provisioning mc))
          (ok noop_client)
  opened-ne-noop_client (ok keys) f h = provisioned-ne-noop_client (f keys) h
  opened-ne-noop_client (err e) f h = cc
  opened-ne-noop_client (panic p) f h = cc

  -- Connect gives the client that does nothing exactly for a bucket whose condition Ready is False
  -- with the reason Deleting and whose condition Synced is True with the reason ReconcileSuccess;
  -- it then leaves the resource as it is.
  pub connect-noop_client_iff :
      (xp : Crossplane) (u : CaseFold) (parse_url : String → Result ParsedUrl)
      (open_client : String → Result (String × String)) (new_client : ClientOptions → Result C)
      (b : Bucket)
      → (((connect xp u parse_url open_client new_client b).1 ≡ ok noop_client) ↔ (
          HasCondition b.status.conditions xp.type_ready xp.condition_false xp.reason_deleting
          × HasCondition b.status.conditions xp.type_synced xp.condition_true
              xp.reason_reconcile_success))
        × ((connect xp u parse_url open_client new_client b).1 ≡ ok noop_client
            → (connect xp u parse_url open_client new_client b).0 ≡ b)
  unfolding connect
  connect-noop_client_iff xp u parse_url open_client new_client b =
      let iff = is_bucket_already_deleted_iff xp b in
      elim (Bool-cases (is_bucket_already_deleted xp b)) [
        | inl deleted ↦ rw deleted (((λ h. iff.0 deleted), (λ h. refl)), (λ h. refl))
        | inr there ↦ rw there (
          (
            (λ h. absurd (opened-ne-noop_client (open_client (get_provider_config_name b)) _ h)),
            (λ h.
                let found : is_bucket_already_deleted xp b ≡ true = iff.1 h in
                let both : ⊥ = cc in absurd both),
          ),
          (λ h. absurd (opened-ne-noop_client (open_client (get_provider_config_name b)) _ h)),
        )
      ]
