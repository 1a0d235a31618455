-- ===== src/Tests/Relational.antt =====
-- Runs of the controller for PostgreSQL.
use provider_exoscale.Prelude.{
  String, true, ◌≡◌, refl, [], ◌∷◌, Option, none, some, msg, ok, err, arith, ◌==◌, if◌then◌else◌,
}
use provider_exoscale.Prelude.Int.{pos}
use provider_exoscale.Json.{to_raw_extension}
use provider_exoscale.Time.{parse}
use provider_exoscale.Time.Format.{time_text}
use provider_exoscale.Api.{running_state}
use provider_exoscale.Managed.{ConnectionDetails, no_observation}
use provider_exoscale.Mapper.Compare.{compare_settings}
use provider_exoscale.Mapper.Versions.{compare_major_version}
use provider_exoscale.Mapper.Conversions.{to_backup_schedule}
use provider_exoscale.Settings.{set_defaults}
use provider_exoscale.Dbaas.{exists_as, settings_with_defaults}
use provider_exoscale.Postgres.{
  PostgreSql, ServicePg, variant_aiven, UpdateRequest, CreateRequest, PgApi, get_instance_name,
}
use provider_exoscale.Postgres.Handlers.{
  empty_observation, from_spec_to_create_body, create, observe, connection_details,
}
use provider_exoscale.Postgres.Bodies.{provisioned}
use provider_exoscale.Postgres.Laws.{postgres_converges, postgres_not_found_again}
use provider_exoscale.Tests.Fixtures.{crossplane}
use provider_exoscale.Tests.Stores.{
  store, json, folding, versions, monday, monday_of_service, hobbyist,
}

abbrev postgres : String → PostgreSql
postgres external_name = record {
  name = "db";
  external_name = external_name;
  provider_config = some "config";
  for_provider = record {
    maintenance = monday;
    backup = record { time_of_day = time_text (pos 2) (pos 30) };
    zone = "ch-gva-2";
    dbaas = hobbyist;
    version = "8";
    pg_settings = record { raw = "" };
  };
  conditions = [];
  at_provider = empty_observation;
}

abbrev postgres_service : ServicePg String
postgres_service = record {
  name = "db";
  state = running_state;
  uri = "postgres://db";
  connection_info = none;
  node_states = [];
  version = "8.1";
  termination_protection = none;
  plan = "";
  ip_filter = [];
  maintenance = none;
  backup_schedule = none;
  pg_settings = "{}";
}

abbrev postgres_request : UpdateRequest String
postgres_request = record {
  plan = "hobbyist-2";
  backup_schedule = record { backup_hour = pos 2; backup_minute = pos 30 };
  variant = variant_aiven;
  termination_protection = true;
  maintenance = monday_of_service;
  ip_filter = "0.0.0.0/0" ∷ [];
  pg_settings = "{}";
}

abbrev first_request : CreateRequest String
first_request = record { version = "8"; rest = postgres_request }

abbrev postgres_created : CreateRequest String → ServicePg String
postgres_created body = provisioned postgres_service body.rest

abbrev postgres_api : PgApi String (Option (ServicePg String))
postgres_api = store postgres_created (provisioned postgres_service)

-- A client that finds the service "db" only.
abbrev named_api : PgApi String (Option (ServicePg String))
named_api = record postgres_api {
  get_service = λ name w. elim w [
    | none ↦ err (msg "not found" [])
    | some s ↦ if name == "db" then ok s else err (msg "not found" [])
  ];
}

abbrev running_postgres : Option (ServicePg String)
running_postgres = some (provisioned postgres_service postgres_request)

abbrev postgres_details : ConnectionDetails
postgres_details =
    ("POSTGRESQL_USER", "admin")
    ∷ ("POSTGRESQL_PASSWORD", "secret")
    ∷ ("POSTGRESQL_URL", "postgres://db")
    ∷ ("POSTGRESQL_DB", "db")
    ∷ ("POSTGRESQL_HOST", "db.example.com")
    ∷ ("POSTGRESQL_PORT", "21699")
    ∷ ("ca.crt", "ca")
    ∷ []

postgres_converges_example :
    (create json postgres_api (postgres "") none ≡ (running_postgres, ok tt))
    × ((observe json postgres_api crossplane versions folding (postgres "") running_postgres).1
        ≡ ok (exists_as true postgres_details ""))
unfolding get_instance_name from_spec_to_create_body to_backup_schedule parse time_text
    connection_details settings_with_defaults set_defaults compare_settings compare_major_version
    to_raw_extension
postgres_converges_example =
    postgres_converges json postgres_api crossplane versions folding (postgres "") postgres_service
      first_request "{}" "ca" 2 30 postgres_details (record { raw = "{}" }) none running_postgres
      refl refl refl refl refl refl refl refl refl refl refl (omega arith) (omega arith)

postgres_not_found_again_example :
    (create json named_api (postgres "other") none ≡ (running_postgres, ok tt))
    × ((observe json named_api crossplane versions folding (postgres "other") running_postgres).1
        ≡ ok no_observation)
unfolding from_spec_to_create_body to_backup_schedule parse time_text
postgres_not_found_again_example =
    postgres_not_found_again json named_api crossplane versions folding (postgres "other")
      first_request (msg "not found" []) none running_postgres refl refl refl refl refl
