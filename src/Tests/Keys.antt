-- ===== src/Tests/Keys.antt =====
-- Runs of the controller for IAM keys.
use provider_exoscale.Prelude.{
  ℕ, suc, inr, leb, ◌≤◌, ◌<◌, String, Bool, true, false, not, ◌≡◌, ◌↔◌, refl, List, [], ◌∷◌, some,
  Result, ok, err, panic, nil_deref, msg, ◌==◌, if◌then◌else◌,
}
use provider_exoscale.Pipeline.{in_order, in_order-RunsInOrder}
use provider_exoscale.Iam.{Context, IamKey, Secret, get_provider_config_name}
use provider_exoscale.Iam.Role.{Action, allow, Rule, create_role, not_bucket, listing_rule}
use provider_exoscale.Iam.Policy.{
  role_rules, first_match, first_match-FirstMatch, AllAre, create_role-allows_iff,
}
use provider_exoscale.Iam.Connect.{new_pipeline, connect, iam-connect_iff}
use provider_exoscale.Iam.Retry.{after_calls, answer_after, Failed, create_api_key_calls}
use provider_exoscale.Connector.{Endpoints, ProviderConfig, Kube}
use provider_exoscale.Connector.Opening.{Holds, gva2}
use provider_exoscale.Iam.Create.{create_iam_key, key_created, initial, CreateApi, create}
use provider_exoscale.Iam.Delete.{DeleteApi, delete}
use provider_exoscale.Iam.Laws.{delete_pending, create_pending_panics}
use provider_exoscale.Tests.Fixtures.{crossplane}

-- The expressions of a policy, read for a request that names a bucket: "" is the listing of all.
abbrev holds : String → String → Bool
holds e q =
    if e == listing_rule.expression
    then q == ""
    else (if e == "true" then true else not (e == not_bucket q))

abbrev decide : List Rule → String → Action
decide = first_match holds

create_role-allows_iff_example :
    (decide (role_rules (create_role "key" ("one" ∷ []))) "one" ≡ allow)
    ↔ ((holds listing_rule.expression "one" ≡ false) × AllAre holds (λ q. q) "one" ("one" ∷ []))
create_role-allows_iff_example =
    create_role-allows_iff holds (λ q. q) decide (first_match-FirstMatch holds) "one" "key"
      ("one" ∷ []) ((refl, tt), refl)

abbrev pub key : List String → IamKey
key buckets = record {
  name = "key";
  external_name = "";
  annotations = [];
  is_deleted = false;
  secret_ref = some (record { name = "secret"; namespace = "default" });
  provider_config = some "config";
  for_provider = record { key_name = "key"; zone = "ch-gva-2"; buckets = buckets };
  conditions = [];
  at_provider = record { key_id = ""; role_id = ""; key_name = ""; buckets = [] };
}

-- A remote side that counts its requests and leaves every operation pending.
abbrev pending_deletes : DeleteApi (List String)
pending_deletes = record {
  delete_api_key = λ id w. ("key" ∷ w, ok (record { success = false; reference_id = "" }));
  delete_iam_role = λ id w. ("role" ∷ w, ok (record { success = false; reference_id = "" }));
  update_iam_role = λ id request w. ("update" ∷ request.permissions, ok tt);
}

delete_pending_example :
    ((delete pending_deletes crossplane in_order (key []) []).1 ≡ ok tt)
    × ((delete pending_deletes crossplane in_order (key []) []).0.world ≡ "key" ∷ [])
    × ((delete pending_deletes crossplane in_order (key []) []).0.events
        ≡ record { reason = "Deleted"; message = "IAMKey deleted" } ∷ [])
delete_pending_example =
    delete_pending in_order in_order-RunsInOrder crossplane (key []) [] pending_deletes
      (record { success = false; reference_id = "" }) refl refl

abbrev filled : List String → Result Secret → List String × Result Secret
filled w (ok s) = ("secret" ∷ w, ok s)
filled w (err e) = (w, err e)
filled w (panic p) = (w, panic p)

abbrev pub pending_creates : CreateApi (List String)
pending_creates = record {
  create_iam_role = λ role w. ("role" ∷ w, ok (record { success = false; reference_id = "" }));
  create_api_key = λ name role w. ("key" ∷ w, err (msg "no role" []));
  create_or_update = λ s f w. filled w (f s);
  set_owner_reference = λ k s. ok s;
}

create_pending_panics_example :
    (create pending_creates crossplane in_order (key ("one" ∷ [])) []).1 ≡ panic nil_deref
create_pending_panics_example =
    create_pending_panics in_order in_order-RunsInOrder crossplane (key ("one" ∷ [])) []
      pending_creates (record { success = false; reference_id = "" })
      (record { name = "secret"; namespace = "default" }) refl refl refl refl
      (λ s f w h. rw (h s) refl)

-- A remote side that counts its requests and refuses a key until it has seen four of them.
abbrev slow_creates : CreateApi ℕ
slow_creates = record {
  create_iam_role = λ role w. (w, ok (record { success = true; reference_id = "role" }));
  create_api_key = λ name role w.
      if leb 4 w
      then (suc w, ok (record { key = "EXO1"; name = name; secret = "s" }))
      else (suc w, err (msg "no role" []));
  create_or_update = λ s f w. (w, f s);
  set_owner_reference = λ k s. ok s;
}

abbrev slow : Context ℕ
slow = initial (key ("one" ∷ [])) 0

create_api_key_calls_example :
    (n : ℕ) × (n ≤ 9)
    × ((j : ℕ) → j < n → Failed (answer_after slow_creates "key" "role" j 0))
    × (create_iam_key slow_creates slow
        ≡ key_created slow_creates slow "role"
            (slow_creates.create_api_key "key" "role" (after_calls slow_creates "key" "role" n 0)))
    × (Failed (answer_after slow_creates "key" "role" n 0) → n ≡ 9)
create_api_key_calls_example =
    create_api_key_calls slow_creates slow (record { success = true; reference_id = "role" }) 0 refl
      refl

-- A cluster whose configuration names one secret; a client is its endpoint.
abbrev cluster : List (String × String) → Kube String
cluster secret = record {
  get_provider_config = λ name. ok (record { secret_name = "api"; secret_namespace = "default" });
  get_secret = λ name namespace. ok secret;
  new_client = λ key secret endpoint. ok endpoint;
}

abbrev credentials : List (String × String)
credentials = ("EXOSCALE_API_KEY", "k") ∷ ("EXOSCALE_API_SECRET", "s") ∷ []

abbrev endpoints : Endpoints
endpoints = record {
  ch_dk2 = "dk2";
  ch_gva2 = "gva2";
  de_fra1 = "fra1";
  de_muc1 = "muc1";
  at_vie1 = "vie1";
  at_vie2 = "vie2";
  bg_sof1 = "sof1";
}

iam-connect_iff_example :
    (connect (cluster credentials) endpoints in_order (key [])
      ≡ ok (new_pipeline (some "gva2") "k" "s"))
    ↔ ((p : ProviderConfig) × (m : List (String × String)) × (k : String) × (secret : String)
        × (client : String) × ((cluster credentials).get_provider_config "config" ≡ ok p)
        × ((cluster credentials).get_secret p.secret_name p.secret_namespace ≡ ok m)
        × Holds m k secret
        × ((cluster credentials).new_client k secret "gva2" ≡ ok client)
        × (new_pipeline (some "gva2") "k" "s" ≡ new_pipeline (some client) k secret))
unfolding get_provider_config_name
iam-connect_iff_example =
    iam-connect_iff (cluster credentials) endpoints in_order in_order-RunsInOrder (key []) "gva2"
      (new_pipeline (some "gva2") "k" "s") (gva2 (inr refl))
