-- ===== src/Tests/Roles.antt =====
-- A key whose role is out of date.
use provider_exoscale.Prelude.{ℕ, suc, true, false, ◌≡◌, refl, [], ◌∷◌, some, msg, ok, err}
use provider_exoscale.Pipeline.{in_order, in_order-RunsInOrder}
use provider_exoscale.Iam.{IamKey, SecretRef, Secret, lookup}
use provider_exoscale.Iam.Role.{create_role, policy_eq}
use provider_exoscale.Iam.Delete.{DeleteApi}
use provider_exoscale.Iam.Observe.{ApiKey, ObserveApi, observe, exists_as}
use provider_exoscale.Iam.Stale.{Outdated, update_times, update_never_settles}
use provider_exoscale.Tests.Fixtures.{crossplane}
use provider_exoscale.Tests.Keys.{key}

abbrev api_key : ApiKey
api_key = record { key = "EXO1"; name = "key" }

abbrev secret_ref : SecretRef
secret_ref = record { name = "secret"; namespace = "default" }

abbrev secret : Secret
secret = record {
  name = "secret";
  namespace = "default";
  labels = [];
  immutable = true;
  entries = ("AWS_SECRET_ACCESS_KEY", "s") ∷ [];
}

-- A remote side that counts the updates, with a role for the bucket "one".
abbrev reads : ObserveApi ℕ
reads = record {
  parse_uuid = λ s. ok s;
  get_api_key = λ id w. ok api_key;
  get_iam_role =
      λ id w. ok (record { id = "role"; policy = some (create_role "key" ("one" ∷ [])).policy });
  get_secret = λ ref w. ok secret;
}

abbrev deletes : DeleteApi ℕ
deletes = record {
  delete_api_key = λ id w. (w, err (msg "in use" []));
  delete_iam_role = λ id w. (w, err (msg "in use" []));
  update_iam_role = λ id request w. (suc w, ok tt);
}

-- A key that asks for the bucket "two".
abbrev outdated : IamKey
outdated =
    let k = key ("two" ∷ []) in
    let p = k.at_provider in
    record k {
      annotations = ("newKeyType", "true") ∷ [];
      at_provider = record p { key_id = "EXO1"; role_id = "role" };
    }

outdated-Outdated : Outdated reads api_key secret_ref secret outdated 0
unfolding create_role policy_eq
outdated-Outdated = record {
  key_there = refl;
  secret_there = refl;
  role = record { id = "role"; policy = some (create_role "key" ("one" ∷ [])).policy };
  role_there = refl;
  role_named = refl;
  other_policy = refl;
}

update_never_settles_example :
    let after = update_times reads api_key secret_ref secret deletes crossplane 3 outdated 0 in
    (observe reads crossplane in_order after.0 after.1).1 ≡ ok (exists_as reads false [])
unfolding lookup
update_never_settles_example =
    update_never_settles reads api_key secret_ref secret deletes crossplane
      (record {
        keys_kept = λ r b i w. refl;
        secrets_kept = λ r b w. refl;
        roles_kept = λ r b i w. refl;
      })
      in_order in_order-RunsInOrder 3 outdated 0 outdated-Outdated refl refl refl refl refl
