-- ===== src/Iam/Stale.antt =====
-- A role that is out of date stays so: operator/iamkeycontroller/update.go and observe.go.
use provider_exoscale.Prelude.{
  ℕ, zero, suc, String, true, false, ◌≡◌, refl, ap, ◌∙◌, List, [], ◌∷◌, none, some, ok, err, panic,
  nil_deref, ◌>>=◌, ◌==◌, if◌then◌else◌,
}
use provider_exoscale.Api.{Crossplane}
use provider_exoscale.Pipeline.{new_step, Runner, RunsInOrder, run-new_step, run-fail}
use provider_exoscale.Iam.{
  IamKey, SecretRef, Secret, Context, lookup, index, secret_access_key_name,
}
use provider_exoscale.Iam.Role.{Policy, create_role, policy_eq}
use provider_exoscale.Iam.Delete.{DeleteApi, UpdateRoleRequest, update, update_request}
use provider_exoscale.Iam.Observe.{
  ApiKey, IamRole, ObserveApi, adopt_role, adopt_key, compare_role, not_up_to_date, secret_fetched,
  fetch_credentials_secret, put_secret, check_secret, observe_role, is_role_uptodate, check_steps,
  exists_as, checked, key_read, adopted_key, adopted_role, observe,
}

-- The policy that createRole makes for the key.
abbrev pub wanted_policy : IamKey → Policy
wanted_policy k = (create_role k.for_provider.key_name k.for_provider.buckets).policy

module _ {W : Type 0} (reads : ObserveApi W) (a : ApiKey) (ref : SecretRef) (s : Secret) where
  -- The API key and the secret are there, and the role has another policy than the key asks for.
  pub record Outdated (k : IamKey) (w : W) : Type 0 where
    pub key_there : reads.get_api_key k.at_provider.key_id w ≡ ok a
    pub secret_there : reads.get_secret ref w ≡ ok s
    pub role : IamRole
    pub role_there : reads.get_iam_role k.at_provider.role_id w ≡ ok role
    pub role_named : (role.id == "") ≡ false
    pub other_policy : policy_eq role.policy (wanted_policy k) ≡ false

  module _ (k : IamKey) (w : W) where
    abbrev begun : Context W
    begun = record {
      iam_key = k;
      iam_exoscale_key = some (record { key = a.key; name = a.name; secret = ""; resources = [] });
      credentials_secret = none;
      world = w;
      events = [];
    }

    abbrev fetched : Context W
    fetched = record begun { credentials_secret = some s }

    abbrev known : Context W
    known = record fetched {
      iam_exoscale_key = some (record {
        key = a.key;
        name = a.name;
        secret = index secret_access_key_name s.entries;
        resources = [];
      });
    }

    secret_read :
        (entries : List (String × String)) {e : String × String} {es : List (String × String)}
        → entries ≡ e ∷ es
        → put_secret reads fetched s entries ≡ (
          record fetched {
            iam_exoscale_key = some (record {
              key = a.key;
              name = a.name;
              secret = index secret_access_key_name entries;
              resources = [];
            });
          },
          ok tt,
        )
    secret_read [] h = cc
    secret_read (e ∷ es) h = refl

    role_compared :
        (out : Outdated k w) → compare_role k (observe_role reads k w) ≡ err not_up_to_date
    unfolding observe_role
    role_compared out =
        ap (compare_role k) (
          ap (λ x. x >>= λ role. ok (if role.id == "" then none else some role)) out.role_there
          ∙ ap (λ b. ok (if b then none else some out.role)) out.role_named)
        ∙ ap (λ b. if b then ok tt else err not_up_to_date) out.other_policy

    role_refused :
        {v : String}
        → Outdated k w
        → lookup "newKeyType" k.annotations ≡ some v
        → is_role_uptodate reads known ≡ (known, err not_up_to_date)
    unfolding is_role_uptodate
    role_refused out marked =
        ap
          (λ o.
            if elim o [ none ↦ false | some x ↦ true ]
            then (known, compare_role k (observe_role reads k w))
            else (known, ok tt))
          marked
        ∙ ap (λ x. (known, x)) (role_compared out)

    steps_fail :
        (r : Runner (Context W)) {v : String} {e : String × String} {es : List (String × String)}
        → RunsInOrder r
        → Outdated k w
        → k.secret_ref ≡ some ref
        → lookup "newKeyType" k.annotations ≡ some v
        → s.entries ≡ e ∷ es
        → r.run (check_steps reads) begun
          ≡ (known, err (r.step_error "check if role is up to date" not_up_to_date))
    unfolding fetch_credentials_secret check_secret
    steps_fail r laws out asks marked filled =
        let refused = role_refused out marked in
        run-new_step r laws "fetch credentials secret" (fetch_credentials_secret reads) _ begun
          fetched
          (ap
              (λ o. elim o [
                | none ↦ (begun, panic nil_deref)
                | some asked ↦ secret_fetched reads begun (reads.get_secret asked w)
              ])
              asks
            ∙ ap (secret_fetched reads begun) out.secret_there)
        ∙ run-new_step r laws "check credentials" (check_secret reads) _ fetched known
            (secret_read s.entries filled)
        ∙ run-fail r laws (new_step "check if role is up to date" (is_role_uptodate reads)) [] known
            not_up_to_date refl (ap (λ x. x.1) refused)
        ∙ ap (λ x. (x.0, err (r.step_error "check if role is up to date" not_up_to_date))) refused

    observe-Outdated :
        (xp : Crossplane) (r : Runner (Context W)) {v : String} {e : String × String}
        {es : List (String × String)}
        → RunsInOrder r
        → Outdated k w
        → (k.at_provider.role_id == "") ≡ false
        → (k.at_provider.key_id == "") ≡ false
        → k.secret_ref ≡ some ref
        → lookup "newKeyType" k.annotations ≡ some v
        → s.entries ≡ e ∷ es
        → (observe reads xp r k w).1 ≡ ok (exists_as reads false [])
    unfolding observe adopt_role adopt_key
    observe-Outdated xp r laws out has_role has_key asks marked filled =
        let role_adopted : adopt_role reads.parse_uuid k ≡ some k = rw has_role refl in
        let key_adopted : adopt_key k ≡ some k = rw has_key refl in
        ap (λ o. (adopted_role reads xp r k w o).1) role_adopted
        ∙ ap (λ o. (adopted_key reads xp r k w o).1) key_adopted
        ∙ ap (λ x. (key_read reads xp r k w x).1) out.key_there
        ∙ ap (λ o. (checked reads xp o).1) (steps_fail r laws out asks marked filled)

  module _ (deletes : DeleteApi W) (xp : Crossplane) where
    -- Update, that many times.
    abbrev pub update_times : ℕ → IamKey → W → IamKey × W
    update_times zero k w = (k, w)
    update_times (suc n) k w = let o = update deletes xp k w in update_times n o.0.0 o.0.1

    -- UpdateIAMRole sends a description, labels and permissions: it changes neither a key nor a
    -- secret, nor the ID and the policy of a role.
    pub record UpdatesDescription : Type 0 where
      pub keys_kept :
          (role_id : String) (body : UpdateRoleRequest) (id : String) (w : W)
          → reads.get_api_key id (deletes.update_iam_role role_id body w).0 ≡ reads.get_api_key id w
      pub secrets_kept :
          (role_id : String) (body : UpdateRoleRequest) (w : W)
          → reads.get_secret ref (deletes.update_iam_role role_id body w).0 ≡ reads.get_secret ref w
      pub roles_kept :
          (role_id : String) (body : UpdateRoleRequest) (id : String) (w : W)
          → reads.get_iam_role id (deletes.update_iam_role role_id body w).0
            ≡ reads.get_iam_role id w

    update-Outdated :
        UpdatesDescription
        → (k : IamKey) (w : W) → Outdated k w
        → Outdated (update deletes xp k w).0.0 (update deletes xp k w).0.1
    unfolding update
    update-Outdated kept k w out =
        let id = k.at_provider.role_id in
        let body = update_request (create_role k.for_provider.key_name k.for_provider.buckets) in
        record {
          key_there = kept.keys_kept id body k.at_provider.key_id w ∙ out.key_there;
          secret_there = kept.secrets_kept id body w ∙ out.secret_there;
          role = out.role;
          role_there = kept.roles_kept id body id w ∙ out.role_there;
          role_named = out.role_named;
          other_policy = out.other_policy;
        }

    -- A key whose role has another policy than the key asks for is reported as not up to date, and
    -- stays so however often Update runs: for a key with the annotation "newKeyType", both IDs and a
    -- connection secret with data, where the runner runs the steps in order and UpdateIAMRole
    -- changes no key, no secret and no policy.
    pub update_never_settles :
        (kept : UpdatesDescription) (r : Runner (Context W)) (laws : RunsInOrder r) (n : ℕ)
        (k : IamKey) (w : W) {v : String} {e : String × String} {es : List (String × String)}
        → Outdated k w
        → (k.at_provider.role_id == "") ≡ false
        → (k.at_provider.key_id == "") ≡ false
        → k.secret_ref ≡ some ref
        → lookup "newKeyType" k.annotations ≡ some v
        → s.entries ≡ e ∷ es
        → let (k', w') = update_times n k w in
          (observe reads xp r k' w').1 ≡ ok (exists_as reads false [])
    unfolding update
    update_never_settles kept r laws zero k w out has_role has_key asks marked filled =
        observe-Outdated k w xp r laws out has_role has_key asks marked filled
    update_never_settles kept r laws (suc n) k w out has_role has_key asks marked filled =
        update_never_settles kept r laws n (update deletes xp k w).0.0 (update deletes xp k w).0.1
          (update-Outdated kept k w out) has_role has_key asks marked filled
