-- ===== src/Tests/Stores.antt =====
-- A client for databases that keeps one service, and the libraries that its controllers use.
use provider_exoscale.Prelude.{ℕ, String, true, [], ◌∷◌, Option, none, some, msg, ok, err, leb, not}
use provider_exoscale.Json.{null, end, JsonCodec}
use provider_exoscale.Api.{CaseFold, DBaaSParameters, MaintenanceSpec}
use provider_exoscale.Mapper.Versions.{VersionLib}
use provider_exoscale.Mapper.Conversions.{ServiceMaintenance}
use provider_exoscale.Settings.{Schemas, schema, none_left, entry}
use provider_exoscale.Dbaas.{DbaasApi}

-- The schemas of all services; none has a property.
abbrev pub schemas : Schemas
schemas = entry "mysql" (schema null none_left) (
    entry "pg" (schema null none_left) (
      entry "redis" (schema null none_left) (
        entry "opensearch" (schema null none_left) (
          entry "kafka" (schema null none_left)
            (entry "kafka-rest" (schema null none_left) none_left)))))

-- The service of a request is made of its body.
abbrev pub store :
    {Svc Cre Upd : Type 0} → (Cre → Svc) → (Upd → Svc) → DbaasApi Svc Cre Upd String (Option Svc)
store made changed = record {
  get_service = λ name w. elim w [ none ↦ err (msg "not found" []) | some s ↦ ok s ];
  is_not_found = λ e. true;
  get_ca_certificate = λ w. ok "ca";
  reveal_user_password = λ name user w. ok "secret";
  create_service = λ name body w. (some (made body), ok tt);
  update_service = λ name body w. (some (changed body), ok tt);
  delete_service = λ name w. (none, ok tt);
  get_settings = λ w. ok "{}";
  parse_schemas = λ s. ok schemas;
  empty_settings = "{}";
  unmarshal_settings = λ s. ok s;
  marshal_settings = λ s. ok s;
  parse_url = λ s.
      ok (record { username = "admin"; path = "/db"; hostname = "db.example.com"; port = "21699" });
  error_text = λ e. "409 Service name is already taken.";
}

abbrev pub json : JsonCodec
json = record { unmarshal = λ s. ok end; marshal = λ m. ok "{}" }

abbrev pub folding : CaseFold
folding = record { fold = λ c. c }

-- Versions that are all of the major version 8.
abbrev pub versions : VersionLib
versions = record {
  Version = ℕ;
  Constraint = ℕ;
  new_version = λ s. ok 8;
  segments = λ n. n ∷ [];
  show = λ n. "8";
  greater_than = λ a b. not (leb a b);
  new_constraint = λ s. ok 8;
  check = λ c v. leb v c;
}

abbrev pub monday : MaintenanceSpec
monday = record { day_of_week = "monday"; time_of_day = "01:00:00" }

abbrev pub monday_of_service : ServiceMaintenance
monday_of_service = record { dow = "monday"; time = "01:00:00" }

abbrev pub hobbyist : DBaaSParameters
hobbyist = record {
  termination_protection = true;
  size = record { plan = "hobbyist-2" };
  ip_filter = "0.0.0.0/0" ∷ [];
}
