-- ===== src/Iam/Laws.antt =====
-- What the handlers of an IAM key do with their role and with operations that are still pending.
use provider_exoscale.Prelude.{
  String, true, false, ◌≡◌, refl, ap, ◌∙◌, List, [], ◌∷◌, some, Result, ok, panic, nil_deref,
  map_err, wrap, eq_refl, eq_iff, if◌then◌else◌,
}
use provider_exoscale.Api.{Crossplane}
use provider_exoscale.Pipeline.{Runner, RunsInOrder, new_step, run-next, run-last, run-panic}
use provider_exoscale.Iam.{IamKey, SecretRef, Secret, Context, to_connection_details}
use provider_exoscale.Iam.Role.{
  Action, allow, deny, Rule, action_eq, rules_eq, policy_eq, find_service, create_role,
}
use provider_exoscale.Iam.Create.{
  Operation, CreateApi, create, create_iam_key, create_credentials_secret, emit_creation_event,
  fill_secret, empty_secret, initial, set_creating, finish, create_steps, secret_steps,
}
use provider_exoscale.Iam.Delete.{
  DeleteApi, delete, update, delete_iam_key, emit_deletion_event, update_request,
}
use provider_exoscale.Iam.Observe.{compare_role}
use provider_exoscale.Iam.Policy.{role_rules}

action_eq_refl : (a : Action) → action_eq a a ≡ true
action_eq_refl allow = refl
action_eq_refl deny = refl

rules_eq_refl : (rs : List Rule) → rules_eq rs rs ≡ true
unfolding rules_eq
rules_eq_refl [] = refl
rules_eq_refl (r ∷ rs) = rw (action_eq_refl r.action, eq_refl r.expression) (rules_eq_refl rs)

-- A role with the policy that createRole makes for a key counts as up to date for that key.
pub compare_role-create_role :
    (k : IamKey) (role_id : String)
    → compare_role k (
        ok (
          some (record {
            id = role_id;
            policy = some (create_role k.for_provider.key_name k.for_provider.buckets).policy;
          })))
      ≡ ok tt
unfolding create_role policy_eq find_service role_rules
compare_role-create_role k role_id =
    rw (rules_eq_refl (role_rules (create_role k.for_provider.key_name k.for_provider.buckets)))
      refl

abbrev pub with_buckets : List String → IamKey → IamKey
with_buckets bs k = let p = k.for_provider in record k { for_provider = record p { buckets = bs } }

-- What Update does to the remote side, and what it returns, does not depend on the buckets of the
-- key.
pub update_ignores_buckets :
    {W : Type 0} (api : DeleteApi W) (xp : Crossplane) (k : IamKey) (bs : List String) (w : W)
    → ((update api xp (with_buckets bs k) w).0.1 ≡ (update api xp k w).0.1)
      × ((update api xp (with_buckets bs k) w).1 ≡ (update api xp k w).1)
unfolding update update_request create_role
update_ignores_buckets api xp k bs w = (refl, refl)

module _ {W : Type 0} (r : Runner (Context W)) (laws : RunsInOrder r) (xp : Crossplane) (k : IamKey)
    (w : W) where
  -- If the deletion of the API key is accepted but not yet a success, Delete reports success and
  -- the event "Deleted", and the deletion of the key is all that it does to the remote side.
  pub delete_pending :
      (api : DeleteApi W) (op : Operation)
      → (api.delete_api_key k.at_provider.key_id w).1 ≡ ok op
      → op.success ≡ false
      → ((delete api xp r k w).1 ≡ ok tt)
        × ((delete api xp r k w).0.world ≡ (api.delete_api_key k.at_provider.key_id w).0)
        × ((delete api xp r k w).0.events
            ≡ record { reason = "Deleted"; message = "IAMKey deleted" } ∷ [])
  unfolding delete delete_iam_key emit_deletion_event
  delete_pending api op answered pending =
      let c = initial (record k { conditions = xp.set_conditions k.conditions xp.deleting }) w in
      let o = api.delete_api_key k.at_provider.key_id w in
      let acted : delete_iam_key api c ≡ (record c { world = o.0 }, ok tt) =
        rw answered (rw pending refl) in
      let ran =
        run-next r laws (new_step "delete IAM key" (delete_iam_key api))
          (new_step "emit event" (emit_deletion_event api) ∷ []) c refl (ap (λ x. x.1) acted)
        ∙ ap (λ x. r.run (new_step "emit event" (emit_deletion_event api) ∷ []) x.0) acted
        ∙ run-last r laws (new_step "emit event" (emit_deletion_event api))
            (record c { world = o.0 }) refl refl in
      (
        ap (λ x. map_err (wrap "cannot deprovision iam key") x.1) ran,
        ap (λ x. x.0.world) ran,
        ap (λ x. x.0.events) ran,
      )

  abbrev first : Context W
  first = initial (set_creating xp k) w

  -- If the creation of the role is accepted but not yet a success, Create panics on a nil pointer:
  -- for a key that has no ID yet and asks for a connection secret, where CreateOrUpdate passes on
  -- the panic of the function that fills the secret.
  pub create_pending_panics :
      (api : CreateApi W) (op : Operation) (ref : SecretRef)
      → k.at_provider.key_id ≡ ""
      → k.secret_ref ≡ some ref
      → (api.create_iam_role (create_role k.for_provider.key_name k.for_provider.buckets) w).1
        ≡ ok op
      → op.success ≡ false
      → ((s : Secret) (f : Secret → Result Secret) (v : W)
          → ((x : Secret) → f x ≡ panic nil_deref)
          → (api.create_or_update s f v).1 ≡ panic nil_deref)
      → (create api xp r k w).1 ≡ panic nil_deref
  unfolding create create_iam_key create_credentials_secret fill_secret to_connection_details
  create_pending_panics api op ref new asks answered pending passes =
      let o = api.create_iam_role (create_role k.for_provider.key_name k.for_provider.buckets) w in
      let c : Context W = record (initial (set_creating xp k) w) { world = o.0 } in
      let acted : create_iam_key api first ≡ (c, ok tt) = rw answered (rw pending refl) in
      let failed : (create_credentials_secret api c).1 ≡ panic nil_deref =
        rw asks (rw (passes (empty_secret api ref) (fill_secret api c) o.0 (λ x. refl)) refl) in
      let ran =
        run-next r laws (new_step "create IAM key" (create_iam_key api)) (secret_steps api) first
          refl (ap (λ x. x.1) acted)
        ∙ ap (λ x. r.run (secret_steps api) x.0) acted
        ∙ run-panic r laws (new_step "create credentials secret" (create_credentials_secret api))
            (new_step "emit event" (emit_creation_event api) ∷ []) c nil_deref refl failed in
      ap (λ b. (if b then finish api (r.run (create_steps api) first) else (first, ok [])).1)
        ((eq_iff k.at_provider.key_id "").1 new)
      ∙ ap (λ x. (finish api x).1) ran
