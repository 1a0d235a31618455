-- ===== src/Iam/Observe.antt =====
-- operator/iamkeycontroller/observe.go.
use Prim.Native.String
use provider_exoscale.Prelude.{
  String, Bool, true, false, List, [], ◌∷◌, Option, none, some, Error, msg, wrap, Result, ok, err,
  panic, nil_deref, ◌>>=◌, ◌==◌, if◌then◌else◌,
}
use provider_exoscale.Api.{Crossplane}
use provider_exoscale.Managed.{ConnectionDetails, ExternalObservation, no_observation}
use provider_exoscale.Pipeline.{Step, new_step, Runner}
use provider_exoscale.Iam.{
  IamKey, SecretRef, AccessKey, Secret, Context, lookup, index, remove, to_connection_details,
  secret_access_key_name, key_id_annotation_key, role_id_annotation_key,
}
use provider_exoscale.Iam.Role.{Policy, create_role, policy_eq}

-- exoscalesdk.IAMAPIKey and IamRole, as far as they are read.
pub record ApiKey : Type 0 where
  pub key : String
  pub name : String

pub record IamRole : Type 0 where
  pub id : String
  pub policy : Option Policy

-- The calls that read: none of them changes the state of the services.
pub record ObserveApi (W : Type 0) : Type 0 where
  pub parse_uuid : String → Result String
  pub get_api_key : String → W → Result ApiKey
  pub get_iam_role : String → W → Result IamRole
  pub get_secret : SecretRef → W → Result Secret

-- getBuckets: the names of the resources of the domain "sos".
unfoldable pub get_buckets : List (String × String) → List String
get_buckets [] = []
get_buckets ((domain, name) ∷ rs) =
    let rest = get_buckets rs in if domain == "sos" then name ∷ rest else rest

-- Moves the ID of the role from its annotation into the status; none ends Observe.
unfoldable pub adopt_role : (String → Result String) → IamKey → Option IamKey
adopt_role parse_uuid k =
    let p = k.at_provider in
    let found : Option IamKey = elim (parse_uuid (index role_id_annotation_key k.annotations)) [
      | ok id ↦ some (record k {
        at_provider = record p { role_id = id };
        annotations = remove role_id_annotation_key k.annotations;
      })
      | err e ↦ none
      | panic q ↦ none
    ] in
    if p.role_id == "" then found else some k

-- Moves the ID of the key from its annotation into the status.
unfoldable pub adopt_key : IamKey → Option IamKey
adopt_key k =
    let p = k.at_provider in
    let found : Option IamKey = elim (lookup key_id_annotation_key k.annotations) [
      | some id ↦ some (record k {
        at_provider = record p { key_id = id };
        annotations = remove key_id_annotation_key k.annotations;
      })
      | none ↦ none
    ] in
    if p.key_id == "" then found else some k

abbrev pub not_up_to_date : Error
not_up_to_date = msg "roles are not equal, IAM Key is not up to date" []

abbrev pub compare_role : IamKey → Result (Option IamRole) → Result (Unit {0})
compare_role k (ok (some role)) =
    if policy_eq role.policy (create_role k.for_provider.key_name k.for_provider.buckets).policy
    then ok tt
    else err not_up_to_date
compare_role k (ok none) = panic nil_deref
compare_role k (err e) = err not_up_to_date
compare_role k (panic p) = panic p

module _ {W : Type 0} (api : ObserveApi W) where
  abbrev pub secret_fetched : Context W → Result Secret → Context W × Result (Unit {0})
  secret_fetched c (ok secret) = (record c { credentials_secret = some secret }, ok tt)
  secret_fetched c (err e) = (c, err e)
  secret_fetched c (panic p) = (c, panic p)

  unfoldable pub fetch_credentials_secret : Context W → Context W × Result (Unit {0})
  fetch_credentials_secret c = elim c.iam_key.secret_ref [
    | none ↦ (c, panic nil_deref)
    | some ref ↦ secret_fetched c (api.get_secret ref c.world)
  ]

  abbrev pub put_secret :
      Context W → Secret → List (String × String) → Context W × Result (Unit {0})
  put_secret c s [] = (
    c,
    err (
        msg "secret %q does not have any data"
          (String.◌++◌ s.namespace (String.◌++◌ "/" s.name) ∷ [])),
  )
  put_secret c s (e ∷ es) = elim c.iam_exoscale_key [
    | none ↦ (c, panic nil_deref)
    | some k ↦ (
      record c {
        iam_exoscale_key = some (record k { secret = index secret_access_key_name (e ∷ es) });
      },
      ok tt,
    )
  ]

  unfoldable pub check_secret : Context W → Context W × Result (Unit {0})
  check_secret c = elim c.credentials_secret [
    | none ↦ (c, panic nil_deref)
    | some secret ↦ put_secret c secret secret.entries
  ]

  -- observeRole: a role without an ID is no role, and no error.
  unfoldable pub observe_role : IamKey → W → Result (Option IamRole)
  observe_role k w = api.get_iam_role k.at_provider.role_id w >>= λ role.
      ok (if role.id == "" then none else some role)

  abbrev pub has_annotation : String → List (String × String) → Bool
  has_annotation key m = elim (lookup key m) [ none ↦ false | some v ↦ true ]

  -- Only keys with the annotation "newKeyType" are checked.
  unfoldable pub is_role_uptodate : Context W → Context W × Result (Unit {0})
  is_role_uptodate c =
      let k = c.iam_key in
      if has_annotation "newKeyType" k.annotations
      then (c, compare_role k (observe_role k c.world))
      else (c, ok tt)

  abbrev pub check_steps : List (Step (Context W))
  check_steps =
      new_step "fetch credentials secret" fetch_credentials_secret
      ∷ new_step "check credentials" check_secret
      ∷ new_step "check if role is up to date" is_role_uptodate
      ∷ []

  abbrev pub exists_as : Bool → ConnectionDetails → ExternalObservation
  exists_as up_to_date details = record {
    resource_exists = true;
    resource_up_to_date = up_to_date;
    connection_details = details;
    diff = "";
  }

  -- iamKey.Status.AtProvider.KeyName and Buckets, after the checks; the key is not nil there.
  abbrev pub record_status : IamKey → AccessKey → IamKey
  record_status k e =
      let p = k.at_provider in
      record k {
        at_provider = record p {
          key_name = e.name;
          buckets = if p.role_id == "" then get_buckets e.resources else k.for_provider.buckets;
        };
      }

  abbrev pub details_read :
      Crossplane → IamKey → Result ConnectionDetails → IamKey × Result ExternalObservation
  details_read xp k (ok details) = (
    record k { conditions = xp.set_conditions k.conditions xp.available },
    ok (exists_as true details),
  )
  details_read xp k (err e) = (k, err (wrap "cannot parse connection details: %w" e))
  details_read xp k (panic p) = (k, panic p)

  -- What follows the pipeline: an error of it means that the key is not up to date.
  abbrev pub checked :
      Crossplane → Context W × Result (Unit {0}) → IamKey × Result ExternalObservation
  checked xp (c, ok u) = elim c.iam_exoscale_key [
    | none ↦ (c.iam_key, panic nil_deref)
    | some e ↦
        details_read xp (record_status c.iam_key e) (to_connection_details c.iam_exoscale_key)
  ]
  checked xp (c, err e) = (c.iam_key, ok (exists_as false []))
  checked xp (c, panic p) = (c.iam_key, panic p)

  -- What follows GetAPIKey.
  abbrev pub key_read :
      Crossplane
      → Runner (Context W)
      → IamKey
      → W
      → Result ApiKey
      → IamKey × Result ExternalObservation
  key_read xp r k w (ok a) = checked xp (
      r.run check_steps (record {
        iam_key = k;
        iam_exoscale_key =
            some (record { key = a.key; name = a.name; secret = ""; resources = [] });
        credentials_secret = none;
        world = w;
        events = [];
      }))
  key_read xp r k w (err e) = (k, if k.is_deleted then ok no_observation else err e)
  key_read xp r k w (panic p) = (k, panic p)

  abbrev pub adopted_key :
      Crossplane
      → Runner (Context W)
      → IamKey
      → W
      → Option IamKey
      → IamKey × Result ExternalObservation
  adopted_key xp r k w none = (k, ok no_observation)
  adopted_key xp r k w (some k') = key_read xp r k' w (api.get_api_key k'.at_provider.key_id w)

  abbrev pub adopted_role :
      Crossplane
      → Runner (Context W)
      → IamKey
      → W
      → Option IamKey
      → IamKey × Result ExternalObservation
  adopted_role xp r k w none = (k, ok no_observation)
  adopted_role xp r k w (some k') = adopted_key xp r k' w (adopt_key k')

  unfoldable pub observe :
      Crossplane → Runner (Context W) → IamKey → W → IamKey × Result ExternalObservation
  observe xp r k w = adopted_role xp r k w (adopt_role api.parse_uuid k)
