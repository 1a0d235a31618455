-- ===== src/Tests/Caches.antt =====
-- Runs of the controllers for Redis.
use provider_exoscale.Prelude.{String, true, ◌≡◌, refl, [], ◌∷◌, Option, none, some, ok}
use provider_exoscale.Api.{running_state}
use provider_exoscale.Managed.{ConnectionDetails}
use provider_exoscale.Mapper.Compare.{compare_settings}
use provider_exoscale.Mapper.Conversions.{to_notifications}
use provider_exoscale.Dbaas.{exists_as, settings_with_defaults}
use provider_exoscale.Settings.{set_defaults}
use provider_exoscale.Redis.{Redis, ServiceRedis, Request, RedisApi}
use provider_exoscale.Redis.Handlers.{update, observe, connection_details}
use provider_exoscale.Redis.Laws.{provisioned, redis_converges}
use provider_exoscale.Tests.Fixtures.{crossplane}
use provider_exoscale.Tests.Stores.{store, json, folding, monday, monday_of_service, hobbyist}

abbrev redis : Redis
redis = record {
  name = "cache";
  external_name = "";
  provider_config = some "config";
  for_provider = record {
    maintenance = monday;
    zone = "ch-gva-2";
    dbaas = hobbyist;
    redis_settings = record { raw = "" };
  };
  conditions = [];
  at_provider = record {
    version = "";
    redis_settings = record { raw = "" };
    node_states = [];
    notifications = [];
  };
}

abbrev redis_service : ServiceRedis String
redis_service = record {
  name = "cache";
  state = running_state;
  uri = "rediss://cache";
  connection_info = none;
  node_states = [];
  version = "7";
  termination_protection = none;
  plan = "";
  ip_filter = [];
  maintenance = none;
  notifications = [];
  redis_settings = "{}";
}

abbrev redis_request : Request String
redis_request = record {
  maintenance = monday_of_service;
  termination_protection = true;
  plan = "hobbyist-2";
  ip_filter = "0.0.0.0/0" ∷ [];
  redis_settings = "{}";
}

abbrev redis_api : RedisApi String (Option (ServiceRedis String))
redis_api = store (provisioned redis_service) (provisioned redis_service)

abbrev redis_details : ConnectionDetails
redis_details =
    ("REDIS_HOST", "db.example.com")
    ∷ ("REDIS_PORT", "21699")
    ∷ ("REDIS_USERNAME", "admin")
    ∷ ("REDIS_PASSWORD", "secret")
    ∷ ("REDIS_URL", "rediss://cache")
    ∷ []

redis_converges_example :
    (update json redis_api redis none ≡ (some (provisioned redis_service redis_request), ok tt))
    × ((observe json redis_api crossplane folding redis
          (some (provisioned redis_service redis_request))).1
        ≡ ok (exists_as true redis_details ""))
unfolding settings_with_defaults to_notifications compare_settings connection_details set_defaults
redis_converges_example =
    redis_converges json redis_api crossplane folding redis redis_service redis_request "{}"
      (some []) redis_details (record { raw = "{}" }) none
      (some (provisioned redis_service redis_request)) refl refl refl refl refl refl refl refl
