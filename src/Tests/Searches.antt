-- ===== src/Tests/Searches.antt =====
-- Runs of the controller for OpenSearch.
use provider_exoscale.Prelude.{String, true, false, ◌≡◌, refl, [], ◌∷◌, Option, none, some, ok}
use provider_exoscale.Json.{str, end, field}
use provider_exoscale.Api.{running_state}
use provider_exoscale.Managed.{ConnectionDetails}
use provider_exoscale.Mapper.Compare.{compare_settings}
use provider_exoscale.Mapper.Conversions.{to_notifications}
use provider_exoscale.Settings.{set_defaults}
use provider_exoscale.Dbaas.{exists_as, settings_with_defaults}
use provider_exoscale.OpenSearch.{
  OpenSearch, ServiceOpensearch, UpdateRequest, CreateRequest, OpensearchApi,
}
use provider_exoscale.OpenSearch.Handlers.{
  empty_observation, create, update, observe, connection_details,
}
use provider_exoscale.OpenSearch.Laws.{provisioned, opensearch_converges}
use provider_exoscale.OpenSearch.Protection.{
  protected, observe_ignores_protection, backed_up, backup_ignored,
}
use provider_exoscale.Tests.Fixtures.{crossplane}
use provider_exoscale.Tests.Stores.{store, json, folding, monday, monday_of_service, hobbyist}

abbrev search : OpenSearch
search = record {
  name = "search";
  external_name = "";
  provider_config = some "config";
  for_provider = record {
    maintenance = monday;
    backup = record { time_of_day = "" };
    dbaas = hobbyist;
    zone = "ch-gva-2";
    major_version = "2";
    open_search_settings = record { raw = "" };
  };
  conditions = [];
  at_provider = empty_observation;
}

abbrev search_service : ServiceOpensearch String
search_service = record {
  name = "search";
  state = running_state;
  uri = "https://search";
  uri_params = field "host" (str "db.example.com") (field "port" (str "21699") end);
  connection_info = some (record { username = "admin"; dashboard_uri = "https://dashboard" });
  node_states = [];
  version = "2";
  termination_protection = none;
  plan = "";
  ip_filter = [];
  maintenance = none;
  notifications = [];
  opensearch_settings = "{}";
}

abbrev search_request : UpdateRequest String
search_request = record {
  maintenance = monday_of_service;
  opensearch_settings = "{}";
  plan = "hobbyist-2";
  ip_filter = "0.0.0.0/0" ∷ [];
  termination_protection = true;
}

abbrev search_created : CreateRequest String → ServiceOpensearch String
search_created body = provisioned search_service body.rest

abbrev search_api : OpensearchApi String (Option (ServiceOpensearch String))
search_api = store search_created (provisioned search_service)

abbrev running_search : Option (ServiceOpensearch String)
running_search = some (provisioned search_service search_request)

abbrev search_details : ConnectionDetails
search_details =
    ("OPENSEARCH_USER", "admin")
    ∷ ("OPENSEARCH_PASSWORD", "secret")
    ∷ ("OPENSEARCH_HOST", "db.example.com")
    ∷ ("OPENSEARCH_PORT", "21699")
    ∷ ("OPENSEARCH_URI", "https://search")
    ∷ ("OPENSEARCH_DASHBOARD_URI", "https://dashboard")
    ∷ []

opensearch_converges_example :
    (create json search_api search none ≡ (running_search, ok tt))
    × ((observe json search_api crossplane folding search running_search).1
        ≡ ok (exists_as true search_details ""))
unfolding settings_with_defaults to_notifications compare_settings connection_details set_defaults
opensearch_converges_example =
    opensearch_converges json search_api crossplane folding search search_service search_request
      "{}" (some []) search_details (record { raw = "{}" }) none running_search refl refl refl refl
      refl refl refl refl

observe_ignores_protection_example :
    (observe json search_api crossplane folding (protected false search) running_search).1
    ≡ (observe json search_api crossplane folding search running_search).1
observe_ignores_protection_example =
    observe_ignores_protection json search_api crossplane folding false search running_search

backup_ignored_example :
    let later = backed_up (record { time_of_day = "23:00:00" }) search in
    (create json search_api later none ≡ create json search_api search none)
    × (update json search_api later none ≡ update json search_api search none)
    × ((observe json search_api crossplane folding later none).1
        ≡ (observe json search_api crossplane folding search none).1)
backup_ignored_example =
    backup_ignored json search_api crossplane folding (record { time_of_day = "23:00:00" }) search
      none
