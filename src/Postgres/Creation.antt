-- ===== src/Postgres/Creation.antt =====
-- The PostgreSQL instances that the webhook lets be created: operator/postgresqlcontroller/webhook.go.
use provider_exoscale.Prelude.{String, ◌≡◌, ◌↔◌, List, Result, ok}
use provider_exoscale.Json.{JsonCodec}
use provider_exoscale.Dbaas.Webhook.{check_spec}
use provider_exoscale.Dbaas.Creation.{Creatable, create_checks_iff}
use provider_exoscale.Postgres.{PostgreSql}
use provider_exoscale.Postgres.Webhook.{validate_create, validate_spec}

module _ (codec : JsonCodec) where
  -- The webhook admits a new PostgreSQL instance exactly if the available versions are found and its version, which is
  -- not empty, is one of them, its IP filter is not empty, its maintenance time parses, and its settings
  -- decode to a map of strings, numbers and Booleans.
  pub postgres-admits_create_iff :
      (available : Result (List String)) (i : PostgreSql)
      → (validate_create codec available i ≡ ok tt)
        ↔ Creatable codec available i.for_provider.version i.for_provider.dbaas.ip_filter
            i.for_provider.maintenance i.for_provider.pg_settings
  unfolding validate_create validate_spec check_spec
  postgres-admits_create_iff available i =
      create_checks_iff codec available i.for_provider.version i.for_provider.dbaas.ip_filter
        i.for_provider.maintenance i.for_provider.pg_settings
