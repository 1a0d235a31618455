-- ===== src/Iam/RoundTrip.antt =====
-- From the credentials that Create stores to those that Observe reports.
use provider_exoscale.Prelude.{
  nil_deref, map_err-eq-ok, Error, sym, String, Bool, true, false, ◌≡◌, refl, ap, ◌∙◌, List, [],
  ◌∷◌, none, some, map_err, wrap, Result, ok, err, panic, ◌>>=◌, ◌==◌, if◌then◌else◌, >>=-eq-ok,
}
use provider_exoscale.Api.{Crossplane}
use provider_exoscale.Managed.{ConnectionDetails}
use provider_exoscale.Pipeline.{Runner, RunsInOrder, run-new_step}
use provider_exoscale.Dbaas.Laws.{ok-injective}
use provider_exoscale.Iam.{
  IamKey, AccessKey, SecretRef, Secret, Context, lookup, insert, to_connection_details,
  access_key_id_name, secret_access_key_name,
}
use provider_exoscale.Iam.Role.{create_role}
use provider_exoscale.Iam.Create.{KeyCreated, CreateApi, store_key, fill_secret, set_entries}
use provider_exoscale.Iam.Observe.{
  IamRole, check_steps, record_status, details_read, ApiKey, ObserveApi, compare_role,
  secret_fetched, fetch_credentials_secret, put_secret, check_secret, observe_role, has_annotation,
  is_role_uptodate, exists_as, checked, key_read, adopted_key, adopted_role, observe,
}
use provider_exoscale.Iam.Adoption.{
  lookup-insert, index-found, with_role, with_key, store_key-adopts_role, store_key-adopts_key,
}
use provider_exoscale.Iam.Laws.{compare_role-create_role}

-- The connection details of a key and its secret.
abbrev pub credentials : String → String → ConnectionDetails
credentials key secret = (access_key_id_name, key) ∷ (secret_access_key_name, secret) ∷ []

details_of :
    (k : AccessKey)
    → (k.key == "") ≡ false
    → (k.secret == "") ≡ false
    → to_connection_details (some k) ≡ ok (credentials k.key k.secret)
unfolding to_connection_details
details_of k has_key has_secret = rw (has_key, has_secret) refl

both_present :
    {A : Type 0} (b c : Bool) (e f : Error) (found d : A)
    → (if b then err e else (if c then err f else ok found)) ≡ ok d
    → (b ≡ false) × (c ≡ false)
both_present true c e f found d h = cc
both_present false true e f found d h = cc
both_present false false e f found d h = (refl, refl)

details_ok :
    (k : AccessKey) (d : ConnectionDetails)
    → to_connection_details (some k) ≡ ok d
    → ((k.key == "") ≡ false) × ((k.secret == "") ≡ false)
unfolding to_connection_details
details_ok k d h = both_present (k.key == "") (k.secret == "") _ _ (credentials k.key k.secret) d h

checked_or_not :
    {X : Type 0} (b : Bool) (x : X) (r : Result (Unit {0}))
    → r ≡ ok tt
    → ◌≡◌ {A = X × Result (Unit {0})} (if b then (x, r) else (x, ok tt)) (x, ok tt)
checked_or_not true x r h = ap (λ q. (x, q)) h
checked_or_not false x r h = refl

module _ {W : Type 0} (made : CreateApi W) (c : Context W) (role : String)
    (created : KeyCreated) where
  abbrev stored : Context W
  stored = store_key made c role created

  -- What the function that CreateOrUpdate is given leaves in the secret.
  filled :
      (before s : Secret)
      → ((k : IamKey) (x y : Secret) → made.set_owner_reference k x ≡ ok y → y.entries ≡ x.entries)
      → fill_secret made stored before ≡ ok s
      → ((created.key == "") ≡ false)
        × ((created.secret == "") ≡ false)
        × (lookup secret_access_key_name s.entries ≡ some created.secret)
  unfolding fill_secret
  filled before s owned h =
      let (details, read, kept) =
        >>=-eq-ok
          (map_err (wrap "cannot parse connection details: %w")
            (to_connection_details stored.iam_exoscale_key))
          _ h in
      let found = map_err-eq-ok (wrap "cannot parse connection details: %w") _ details read in
      let (has_key, has_secret) = details_ok _ details found in
      let same : details ≡ credentials created.key created.secret =
        ok-injective (sym found ∙ details_of _ has_key has_secret) in
      (
        has_key,
        has_secret,
        ap (lookup secret_access_key_name)
              (owned stored.iam_key _ s kept ∙ ap (set_entries made before.entries) same)
            ∙ lookup-insert secret_access_key_name created.secret
                (insert access_key_id_name created.key before.entries),
      )

  module _ (reads : ObserveApi W) (id : String) (ref : SecretRef) (s : Secret) (a : ApiKey)
      (w : W) where
    -- The key that Observe has found in the annotations, and the contexts of its three steps.
    abbrev adopted : IamKey
    adopted = with_key (with_role stored.iam_key id) created.key

    abbrev begun : Context W
    begun = record {
      iam_key = adopted;
      iam_exoscale_key = some (record { key = a.key; name = a.name; secret = ""; resources = [] });
      credentials_secret = none;
      world = w;
      events = [];
    }

    abbrev fetched : Context W
    fetched = record begun { credentials_secret = some s }

    abbrev known : Context W
    known = record fetched {
      iam_exoscale_key =
          some (record { key = a.key; name = a.name; secret = created.secret; resources = [] });
    }

    secret_read :
        (entries : List (String × String))
        → lookup secret_access_key_name entries ≡ some created.secret
        → put_secret reads fetched s entries ≡ (known, ok tt)
    unfolding lookup
    secret_read [] found = cc
    secret_read (e ∷ es) found =
        ap
          (λ v. (
            record fetched {
              iam_exoscale_key =
                  some (record { key = a.key; name = a.name; secret = v; resources = [] });
            },
            ok tt,
          ))
          (index-found secret_access_key_name created.secret (e ∷ es) found)

    role_kept :
        (id == "") ≡ false
        → reads.get_iam_role id w
          ≡ ok (record {
            id = id;
            policy =
                some
                  (create_role c.iam_key.for_provider.key_name
                    c.iam_key.for_provider.buckets).policy;
          })
        → is_role_uptodate reads known ≡ (known, ok tt)
    unfolding is_role_uptodate observe_role
    role_kept named found =
        let policy =
          some
            (create_role c.iam_key.for_provider.key_name c.iam_key.for_provider.buckets).policy in
        let kept : IamRole = record { id = id; policy = policy } in
        let seen : observe_role reads adopted w ≡ ok (some kept) =
          ap (λ x. x >>= λ role. ok (if role.id == "" then none else some role)) found
          ∙ ap (λ b. ok (if b then none else some kept)) named in
        checked_or_not (has_annotation reads "newKeyType" adopted.annotations) known
          (compare_role adopted (observe_role reads adopted w))
          (ap (compare_role adopted) seen ∙ compare_role-create_role adopted id)

    -- The three steps, and what follows them.
    steps_run :
        (r : Runner (Context W))
        → RunsInOrder r
        → c.iam_key.secret_ref ≡ some ref
        → reads.get_secret ref w ≡ ok s
        → lookup secret_access_key_name s.entries ≡ some created.secret
        → is_role_uptodate reads known ≡ (known, ok tt)
        → r.run (check_steps reads) begun ≡ (known, ok tt)
    unfolding fetch_credentials_secret check_secret
    steps_run r laws asks stored_secret found kept =
        run-new_step r laws "fetch credentials secret" (fetch_credentials_secret reads) _ begun
          fetched
          (ap
              (λ o. elim o [
                | none ↦ (begun, panic nil_deref)
                | some asked ↦ secret_fetched reads begun (reads.get_secret asked w)
              ])
              asks
            ∙ ap (secret_fetched reads begun) stored_secret)
        ∙ run-new_step r laws "check credentials" (check_secret reads) _ fetched known
            (secret_read s.entries found)
        ∙ run-new_step r laws "check if role is up to date" (is_role_uptodate reads) [] known known
            kept
        ∙ laws.run-nil known

    -- Observe after Create: for a key whose status has neither ID and that asks for a connection
    -- secret, once createIAMKey has stored the role and the new API key and CreateOrUpdate has filled
    -- the secret, Observe finds the resource up to date and reports the ID and the secret of that key,
    -- if Exoscale still has the key, and the role with the policy that createRole made, and the cluster
    -- the secret. The ID of the role is a UUID that is not empty, and SetOwnerReference keeps the
    -- entries of the secret.
    pub created_key_observed :
        (xp : Crossplane) (r : Runner (Context W)) (laws : RunsInOrder r) (before : Secret)
        → c.iam_key.at_provider.key_id ≡ ""
        → c.iam_key.at_provider.role_id ≡ ""
        → c.iam_key.secret_ref ≡ some ref
        → ((k : IamKey) (x y : Secret)
            → made.set_owner_reference k x ≡ ok y
            → y.entries ≡ x.entries)
        → fill_secret made (store_key made c role created) before ≡ ok s
        → reads.parse_uuid role ≡ ok id
        → (id == "") ≡ false
        → reads.get_api_key created.key w ≡ ok a
        → a.key ≡ created.key
        → reads.get_secret ref w ≡ ok s
        → reads.get_iam_role id w
          ≡ ok (record {
            id = id;
            policy =
                some
                  (create_role c.iam_key.for_provider.key_name
                    c.iam_key.for_provider.buckets).policy;
          })
        → (observe reads xp r (store_key made c role created).iam_key w).1
          ≡ ok (exists_as reads true (credentials created.key created.secret))
    unfolding observe
    created_key_observed xp r laws before no_key no_role asks owned fill parsed named found same_key
          stored_secret role_found =
        let (has_key, has_secret, entry) = filled before s owned fill in
        let ran = steps_run r laws asks stored_secret entry (role_kept named role_found) in
        let details : to_connection_details known.iam_exoscale_key
            ≡ ok (credentials created.key created.secret) =
          details_of
            (record { key = a.key; name = a.name; secret = created.secret; resources = [] })
            (ap (λ x. x == "") same_key ∙ has_key) has_secret
          ∙ ap (λ x. ok (credentials x created.secret)) same_key in
        ap (λ o. (adopted_role reads xp r stored.iam_key w o).1)
          (store_key-adopts_role made reads.parse_uuid c role id created no_role parsed)
        ∙ ap (λ o. (adopted_key reads xp r (with_role stored.iam_key id) w o).1)
            (store_key-adopts_key made reads.parse_uuid c role id created no_key)
        ∙ ap (λ x. (key_read reads xp r adopted w x).1) found
        ∙ ap (λ o. (checked reads xp o).1) ran
        ∙ ap
            (λ d.
              (details_read reads xp
                (record_status reads adopted
                  (record { key = a.key; name = a.name; secret = created.secret; resources = [] }))
                d).1)
            details
