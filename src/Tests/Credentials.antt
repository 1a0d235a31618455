-- ===== src/Tests/Credentials.antt =====
-- A run of Create and Observe on an IAM key.
use provider_exoscale.Prelude.{String, true, ◌≡◌, refl, sym, ap, List, [], ◌∷◌, some, ok}
use provider_exoscale.Pipeline.{in_order, in_order-RunsInOrder}
use provider_exoscale.Dbaas.Laws.{ok-injective}
use provider_exoscale.Iam.{Context, Secret, SecretRef, to_connection_details, insert}
use provider_exoscale.Iam.Role.{create_role}
use provider_exoscale.Iam.Create.{store_key, fill_secret, empty_secret, initial}
use provider_exoscale.Iam.Observe.{ObserveApi, observe, exists_as}
use provider_exoscale.Iam.RoundTrip.{credentials, created_key_observed}
use provider_exoscale.Tests.Fixtures.{crossplane}
use provider_exoscale.Tests.Keys.{key, pending_creates}

-- What Create starts from, for a key without IDs.
abbrev begun : Context (List String)
begun = initial (key ("one" ∷ [])) []

abbrev reference : SecretRef
reference = record { name = "secret"; namespace = "default" }

abbrev stored_secret : Secret
stored_secret = record {
  name = "secret";
  namespace = "default";
  labels =
      ("app.kubernetes.io/instance", "key")
      ∷ ("app.kubernetes.io/managed-by", "exoscale.crossplane.io")
      ∷ ("app.kubernetes.io/created-by", "controller-iamkey")
      ∷ [];
  entries = ("AWS_ACCESS_KEY_ID", "EXO1") ∷ ("AWS_SECRET_ACCESS_KEY", "s") ∷ [];
  immutable = true;
}

abbrev reads : ObserveApi (List String)
reads = record {
  parse_uuid = λ s. ok s;
  get_api_key = λ id w. ok (record { key = id; name = "key" });
  get_iam_role =
      λ id w. ok (record { id = id; policy = some (create_role "key" ("one" ∷ [])).policy });
  get_secret = λ ref w. ok stored_secret;
}

created_key_observed_example :
    (observe reads crossplane in_order
      (store_key pending_creates begun "role"
        (record { key = "EXO1"; name = "key"; secret = "s" })).iam_key
      []).1
    ≡ ok (exists_as reads true (credentials "EXO1" "s"))
unfolding fill_secret to_connection_details insert
created_key_observed_example =
    created_key_observed pending_creates begun "role"
      (record { key = "EXO1"; name = "key"; secret = "s" }) reads "role" reference stored_secret
      (record { key = "EXO1"; name = "key" }) [] crossplane in_order in_order-RunsInOrder
      (empty_secret pending_creates reference) refl refl refl
      (λ k x y e. ap (λ z. z.entries) (sym (ok-injective e))) refl refl refl refl refl refl refl
