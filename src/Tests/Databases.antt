-- ===== src/Tests/Databases.antt =====
-- Runs of the controller for MySQL.
use provider_exoscale.Prelude.{
  String, true, ◌≡◌, ◌≢◌, ◌↔◌, ◌⊎◌, refl, [], ◌∷◌, Option, none, some, ok, arith,
}
use provider_exoscale.Prelude.Int.{pos}
use provider_exoscale.Json.{Fields, to_map, to_raw_extension}
use provider_exoscale.Api.{running_state}
use provider_exoscale.Managed.{ConnectionDetails}
use provider_exoscale.Time.{parse}
use provider_exoscale.Time.Format.{time_text}
use provider_exoscale.Mapper.Compare.{compare_settings}
use provider_exoscale.Mapper.Versions.{compare_major_version}
use provider_exoscale.Mapper.Conversions.{to_backup_schedule, to_notifications}
use provider_exoscale.Settings.{set_defaults}
use provider_exoscale.Webhook.{validate_update_version}
use provider_exoscale.Webhook.Laws.{AllSupported}
use provider_exoscale.Dbaas.{exists_as, settings_with_defaults}
use provider_exoscale.Mysql.{
  MySql, MySqlParameters, ServiceMysql, UpdateRequest, CreateRequest, MysqlApi, get_instance_name,
}
use provider_exoscale.Mysql.Handlers.{empty_observation, create, observe, connection_details}
use provider_exoscale.Mysql.Webhook.{validate_update}
use provider_exoscale.Mysql.Laws.{provisioned}
use provider_exoscale.Mysql.Converges.{mysql_converges}
use provider_exoscale.Mysql.Admission.{mysql-admits_update_iff}
use provider_exoscale.Tests.Fixtures.{crossplane}
use provider_exoscale.Tests.Stores.{
  store, json, folding, versions, monday, monday_of_service, hobbyist,
}

abbrev pub parameters : MySqlParameters
parameters = record {
  maintenance = monday;
  backup = record { time_of_day = time_text (pos 2) (pos 30) };
  zone = "ch-gva-2";
  version = "8";
  dbaas = hobbyist;
  my_sql_settings = record { raw = "" };
}

abbrev pub instance_of : String → MySql
instance_of zone = record {
  name = "db";
  external_name = "";
  provider_config = some "config";
  for_provider = record parameters { zone = zone };
  conditions = [];
  at_provider = empty_observation;
}

-- A service without a maintenance window.
abbrev pub service : ServiceMysql String
service = record {
  name = "db";
  state = running_state;
  uri = "mysql://db";
  connection_info = none;
  node_states = none;
  version = "8.0";
  termination_protection = none;
  plan = "";
  ip_filter = [];
  maintenance = none;
  backup_schedule = none;
  notifications = [];
  mysql_settings = "{}";
}

abbrev service_created : CreateRequest String → ServiceMysql String
service_created body = provisioned service body.rest

abbrev pub databases : MysqlApi String (Option (ServiceMysql String))
databases = store service_created (provisioned service)

abbrev body_sent : UpdateRequest String
body_sent = record {
  maintenance = monday_of_service;
  backup_schedule = record { backup_hour = pos 2; backup_minute = pos 30 };
  termination_protection = true;
  plan = "hobbyist-2";
  ip_filter = "0.0.0.0/0" ∷ [];
  mysql_settings = "{}";
}

abbrev running_service : Option (ServiceMysql String)
running_service = some (provisioned service body_sent)

abbrev details : ConnectionDetails
details =
    ("MYSQL_USER", "admin")
    ∷ ("MYSQL_PASSWORD", "secret")
    ∷ ("MYSQL_URL", "mysql://db")
    ∷ ("MYSQL_DB", "db")
    ∷ ("MYSQL_HOST", "db.example.com")
    ∷ ("MYSQL_PORT", "21699")
    ∷ ("ca.crt", "ca")
    ∷ []

mysql_converges_example :
    (create json databases (instance_of "ch-gva-2") none ≡ (running_service, ok tt))
    × ((observe json databases crossplane versions folding
          (instance_of "ch-gva-2")
          running_service).1
        ≡ ok (exists_as true details ""))
unfolding get_instance_name to_backup_schedule parse time_text to_notifications connection_details
    settings_with_defaults set_defaults compare_settings compare_major_version to_raw_extension
mysql_converges_example =
    mysql_converges json databases crossplane versions folding (instance_of "ch-gva-2") service
      body_sent "{}" "ca" 2 30 (some []) details (record { raw = "{}" }) none running_service refl
      refl refl refl refl refl refl refl refl refl refl (omega arith) (omega arith)

mysql-admits_update_iff_example :
    (validate_update json versions (instance_of "ch-gva-2") (instance_of "ch-dk-2") ≡ ok tt) ↔ (
      (hobbyist.ip_filter ≢ [])
      × ((parse "01:00:00").3 ≡ none)
      × ((fs : Fields) × (to_map json (record { raw = "" }) ≡ ok fs) × AllSupported fs)
      × ((instance_of "ch-gva-2").for_provider.zone ≡ (instance_of "ch-dk-2").for_provider.zone)
      × ((parameters.version ≡ parameters.version)
          ⊎ (validate_update_version versions "" "8" "8" ≡ ok tt)))
mysql-admits_update_iff_example =
    mysql-admits_update_iff json versions (instance_of "ch-gva-2") (instance_of "ch-dk-2")
