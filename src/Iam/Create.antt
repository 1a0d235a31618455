-- ===== src/Iam/Create.antt =====
-- operator/iamkeycontroller/create.go.
use provider_exoscale.Prelude.{
  ℕ, zero, suc, String, Bool, true, false, List, [], ◌∷◌, ◌++◌, none, some, wrap, Result, ok, err,
  panic, nil_deref, map_err, ◌>>=◌, ◌==◌, if◌then◌else◌,
}
use provider_exoscale.Api.{Crossplane}
use provider_exoscale.Managed.{ConnectionDetails, Event}
use provider_exoscale.Pipeline.{Step, new_step, Runner}
use provider_exoscale.Iam.{
  IamKey, SecretRef, Secret, Context, insert, to_connection_details, key_id_annotation_key,
  role_id_annotation_key,
}
use provider_exoscale.Iam.Role.{CreateRoleRequest, create_role}

-- exoscalesdk.Operation: whether its state is success, and the ID that it refers to.
pub record Operation : Type 0 where
  pub success : Bool
  pub reference_id : String

-- exoscalesdk.IAMAPIKeyCreated.
pub record KeyCreated : Type 0 where
  pub key : String
  pub name : String
  pub secret : String

-- The calls of the Exoscale client, and of controller-runtime on the secret. CreateOrUpdate is given
-- the function that fills the secret.
pub record CreateApi (W : Type 0) : Type 0 where
  pub create_iam_role : CreateRoleRequest → W → W × Result Operation
  pub create_api_key : String → String → W → W × Result KeyCreated
  pub create_or_update : Secret → (Secret → Result Secret) → W → W × Result Secret
  pub set_owner_reference : IamKey → Secret → Result Secret

abbrev pub set_creating : Crossplane → IamKey → IamKey
set_creating xp k = record k { conditions = xp.set_conditions k.conditions xp.creating }

abbrev pub initial : {W : Type 0} → IamKey → W → Context W
initial k w = record {
  iam_key = k;
  iam_exoscale_key = none;
  credentials_secret = none;
  world = w;
  events = [];
}

module _ {W : Type 0} (api : CreateApi W) where
  -- The loop over CreateAPIKey, with the rounds that are left after the first: an error is tried
  -- again.
  unfoldable pub retry_create : ℕ → String → String → W → W × Result KeyCreated
  retry_create zero name role w = api.create_api_key name role w
  retry_create (suc rounds) name role w =
      let (w', r) = api.create_api_key name role w in
      elim r [
        | ok k ↦ (w', ok k)
        | err e ↦ retry_create rounds name role w'
        | panic p ↦ (w', panic p)
      ]

  abbrev pub store_key : Context W → String → KeyCreated → Context W
  store_key c role k =
      let key = c.iam_key in
      record c {
        iam_exoscale_key =
            some (record { key = k.key; name = k.name; secret = k.secret; resources = [] });
        iam_key = record key {
          annotations =
              insert role_id_annotation_key role
                (insert key_id_annotation_key k.key key.annotations);
        };
      }

  -- After the loop: a key without an ID returns the error of the last call, which is nil.
  abbrev pub key_created :
      Context W → String → W × Result KeyCreated → Context W × Result (Unit {0})
  key_created c role o = elim o.1 [
    | ok k ↦
        if k.key == ""
        then (record c { world = o.0 }, ok tt)
        else (store_key (record c { world = o.0 }) role k, ok tt)
    | err e ↦ (record c { world = o.0 }, err e)
    | panic p ↦ (record c { world = o.0 }, panic p)
  ]

  -- After CreateIAMRole: an operation that is not a success returns its error, which is nil.
  abbrev pub role_created : Context W → W × Result Operation → Context W × Result (Unit {0})
  role_created c o = elim o.1 [
    | ok op ↦
        if op.success
        then key_created c op.reference_id
            (retry_create 9 c.iam_key.for_provider.key_name op.reference_id o.0)
        else (record c { world = o.0 }, ok tt)
    | err e ↦ (record c { world = o.0 }, err e)
    | panic p ↦ (record c { world = o.0 }, panic p)
  ]

  unfoldable pub create_iam_key : Context W → Context W × Result (Unit {0})
  create_iam_key c =
      let p = c.iam_key.for_provider in
      role_created c (api.create_iam_role (create_role p.key_name p.buckets) c.world)

  unfoldable pub emit_creation_event : Context W → Context W × Result (Unit {0})
  emit_creation_event c =
      let e : Event = record { reason = "Created"; message = "IAMKey successfully created" } in
      (record c { events = c.events ++ e ∷ [] }, ok tt)

  -- labels.Merge(secret.Labels, getCommonLabels(name)).
  abbrev merge_labels : List (String × String) → String → List (String × String)
  merge_labels labels name = insert "app.kubernetes.io/created-by" "controller-iamkey" (
      insert "app.kubernetes.io/managed-by" "exoscale.crossplane.io"
        (insert "app.kubernetes.io/instance" name labels))

  abbrev pub set_entries : List (String × String) → ConnectionDetails → List (String × String)
  set_entries m [] = m
  set_entries m ((k, v) ∷ details) = set_entries (insert k v m) details

  -- The function that CreateOrUpdate is given.
  unfoldable pub fill_secret : Context W → Secret → Result Secret
  fill_secret c secret =
      map_err (wrap "cannot parse connection details: %w")
        (to_connection_details c.iam_exoscale_key)
      >>= λ details. api.set_owner_reference c.iam_key (record secret {
        labels = merge_labels secret.labels c.iam_key.name;
        entries = set_entries secret.entries details;
        immutable = true;
      })

  abbrev pub empty_secret : SecretRef → Secret
  empty_secret ref = record {
    name = ref.name;
    namespace = ref.namespace;
    labels = [];
    entries = [];
    immutable = false;
  }

  abbrev pub secret_stored : Context W → W × Result Secret → Context W × Result (Unit {0})
  secret_stored c o = elim o.1 [
    | ok secret ↦ (record c { world = o.0; credentials_secret = some secret }, ok tt)
    | err e ↦ (record c { world = o.0 }, err e)
    | panic p ↦ (record c { world = o.0 }, panic p)
  ]

  unfoldable pub create_credentials_secret : Context W → Context W × Result (Unit {0})
  create_credentials_secret c = elim c.iam_key.secret_ref [
    | none ↦ (c, panic nil_deref)
    | some ref ↦ secret_stored c (api.create_or_update (empty_secret ref) (fill_secret c) c.world)
  ]

  abbrev pub secret_steps : List (Step (Context W))
  secret_steps =
      new_step "create credentials secret" create_credentials_secret
      ∷ new_step "emit event" emit_creation_event
      ∷ []

  abbrev pub create_steps : List (Step (Context W))
  create_steps = new_step "create IAM key" create_iam_key ∷ secret_steps

  abbrev pub finish : Context W × Result (Unit {0}) → Context W × Result ConnectionDetails
  finish (c, r) = (
    c,
    map_err (wrap "cannot create IAM Key") r >>= λ u.
        map_err (wrap "cannot parse connection details: %w")
          (to_connection_details c.iam_exoscale_key),
  )

  -- Create, with the connection details of its answer.
  unfoldable pub create :
      Crossplane → Runner (Context W) → IamKey → W → Context W × Result ConnectionDetails
  create xp r k w =
      let c = initial (set_creating xp k) w in
      let ran = finish (r.run create_steps c) in
      if k.at_provider.key_id == "" then ran else (c, ok [])
