-- ===== src/Iam/Adoption.antt =====
-- From the annotations that Create writes to the status that Observe fills from them.
use provider_exoscale.Prelude.{
  String, true, false, ◌≡◌, refl, ap, ◌∙◌, List, [], ◌∷◌, none, some, Result, ok, ◌==◌, eq_iff,
  eq_refl, arith,
}
use provider_exoscale.Iam.{
  IamKey, Context, lookup, insert, remove, index, key_id_annotation_key, role_id_annotation_key,
}
use provider_exoscale.Iam.Create.{KeyCreated, CreateApi, store_key}
use provider_exoscale.Iam.Observe.{adopt_role, adopt_key}

pub lookup-insert : (k v : String) (m : List (String × String)) → lookup k (insert k v m) ≡ some v
unfolding lookup insert
lookup-insert k v [] = rw (eq_refl k)
lookup-insert k v ((j, w) ∷ m) = ground (arith, eq_refl k, lookup-insert k v m)

pub lookup-insert_other :
    (k j v : String) (m : List (String × String))
    → (j == k) ≡ false
    → lookup k (insert j v m) ≡ lookup k m
unfolding lookup insert
lookup-insert_other k j v [] h = ground arith
lookup-insert_other k j v ((i, w) ∷ m) h =
    ground (arith, lookup-insert_other k j v m h, eq_iff i j, eq_iff i k, eq_iff j k)

pub lookup-remove_other :
    (k j : String) (m : List (String × String))
    → (j == k) ≡ false
    → lookup k (remove j m) ≡ lookup k m
unfolding lookup remove
lookup-remove_other k j [] h = refl
lookup-remove_other k j ((i, w) ∷ m) h =
    ground (arith, lookup-remove_other k j m h, eq_iff i j, eq_iff i k, eq_iff j k)

-- Each of the two functions moves its annotation, where it is there.
abbrev pub with_role : IamKey → String → IamKey
with_role k id =
    let p = k.at_provider in
    record k {
      at_provider = record p { role_id = id };
      annotations = remove role_id_annotation_key k.annotations;
    }

abbrev pub with_key : IamKey → String → IamKey
with_key k id =
    let p = k.at_provider in
    record k {
      at_provider = record p { key_id = id };
      annotations = remove key_id_annotation_key k.annotations;
    }

pub adopt_key-found :
    (k : IamKey) (id : String)
    → (k.at_provider.key_id == "") ≡ true
    → lookup key_id_annotation_key k.annotations ≡ some id
    → adopt_key k ≡ some (with_key k id)
unfolding adopt_key
adopt_key-found k id new found = rw (new, found) refl

pub index-found : (k v : String) (m : List (String × String)) → lookup k m ≡ some v → index k m ≡ v
unfolding index
index-found k v m found = ap (λ o. elim o [ none ↦ "" | some w ↦ w ]) found

pub adopt_role-found :
    (parse_uuid : String → Result String) (k : IamKey) (role id : String)
    → (k.at_provider.role_id == "") ≡ true
    → lookup role_id_annotation_key k.annotations ≡ some role
    → parse_uuid role ≡ ok id
    → adopt_role parse_uuid k ≡ some (with_role k id)
unfolding adopt_role
adopt_role-found parse_uuid k role id new found parsed =
    rw (new, index-found role_id_annotation_key role k.annotations found, parsed) refl

module _ {W : Type 0} (api : CreateApi W) (parse_uuid : String → Result String) where
  pub store_key-adopts_role :
      (c : Context W) (role id : String) (created : KeyCreated)
      → c.iam_key.at_provider.role_id ≡ ""
      → parse_uuid role ≡ ok id
      → adopt_role parse_uuid (store_key api c role created).iam_key
        ≡ some (with_role (store_key api c role created).iam_key id)
  store_key-adopts_role c role id created no_role parsed =
      let keyed = insert key_id_annotation_key created.key c.iam_key.annotations in
      adopt_role-found parse_uuid (store_key api c role created).iam_key role id
        ((eq_iff c.iam_key.at_provider.role_id "").1 no_role)
        (lookup-insert role_id_annotation_key role keyed) parsed

  pub store_key-adopts_key :
      (c : Context W) (role id : String) (created : KeyCreated)
      → c.iam_key.at_provider.key_id ≡ ""
      → adopt_key (with_role (store_key api c role created).iam_key id)
        ≡ some (with_key (with_role (store_key api c role created).iam_key id) created.key)
  store_key-adopts_key c role id created no_key =
      let keyed = insert key_id_annotation_key created.key c.iam_key.annotations in
      let marked = insert role_id_annotation_key role keyed in
      adopt_key-found (with_role (store_key api c role created).iam_key id) created.key
        ((eq_iff c.iam_key.at_provider.key_id "").1 no_key)
        (lookup-remove_other key_id_annotation_key role_id_annotation_key marked refl
          ∙ lookup-insert_other key_id_annotation_key role_id_annotation_key role keyed refl
          ∙ lookup-insert key_id_annotation_key created.key c.iam_key.annotations)

  -- What Create leaves in the annotations is what Observe moves into the status: for a key whose
  -- status has neither ID, after createIAMKey has stored the role and the new API key, and where the
  -- ID of the role is a UUID, Observe finds both IDs and puts them into the status.
  pub store_key-adopted :
      (c : Context W) (role id : String) (created : KeyCreated)
      → c.iam_key.at_provider.key_id ≡ ""
      → c.iam_key.at_provider.role_id ≡ ""
      → parse_uuid role ≡ ok id
      → (k1 : IamKey) × (k2 : IamKey) × (adopt_role parse_uuid
            (store_key api c role created).iam_key
          ≡ some k1)
        × (adopt_key k1 ≡ some k2)
        × (k2.at_provider.role_id ≡ id)
        × (k2.at_provider.key_id ≡ created.key)
  store_key-adopted c role id created no_key no_role parsed = (
    with_role (store_key api c role created).iam_key id,
    with_key (with_role (store_key api c role created).iam_key id) created.key,
    store_key-adopts_role c role id created no_role parsed,
    store_key-adopts_key c role id created no_key,
    refl,
    refl,
  )
