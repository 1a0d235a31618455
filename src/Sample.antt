-- ===== src/Sample.antt =====
-- generate_sample.go: the sample resources, as far as the controllers and the webhooks read them (of a
-- database the reference to its connection secret is left out), and how they are written to files.
-- The SDK's name of the Monday is a parameter.
pub mod Files
pub mod Laws
use provider_exoscale.Prelude.{String, [], ◌∷◌, none, some, false}
use provider_exoscale.Api.{MaintenanceSpec, DBaaSParameters}
use provider_exoscale.Connector.{ProviderConfig}
use provider_exoscale.Bucket.{Bucket, delete_if_empty}
use provider_exoscale.Iam.{IamKey}
use provider_exoscale.Mysql.{MySql}
use provider_exoscale.Mysql.Handlers as MysqlHandlers
use provider_exoscale.Postgres.{PostgreSql}
use provider_exoscale.Postgres.Handlers as PostgresHandlers
use provider_exoscale.Redis.{Redis}
use provider_exoscale.Redis.Handlers as RedisHandlers
use provider_exoscale.Kafka.{Kafka}
use provider_exoscale.Kafka.Reading as KafkaReading
use provider_exoscale.OpenSearch.{OpenSearch}
use provider_exoscale.OpenSearch.Handlers as OpenSearchHandlers

unfoldable pub new_bucket_sample : Bucket
new_bucket_sample = record {
  name = "bucket-local-dev";
  annotations = none;
  provider_config = some "provider-config";
  for_provider = record {
    bucket_name = "bucket-local-dev";
    endpoint_url = "";
    zone = "ch-gva-2";
    bucket_deletion_policy = delete_if_empty;
  };
  status = record { conditions = []; endpoint = ""; endpoint_url = ""; bucket_name = "" };
}

unfoldable pub new_iam_key_sample : IamKey
new_iam_key_sample = record {
  name = "iam-key-local-dev";
  external_name = "";
  annotations = [];
  is_deleted = false;
  secret_ref = some (record { name = "my-exoscale-user-credentials"; namespace = "default" });
  provider_config = some "provider-config";
  for_provider = record {
    key_name = "iam-key-local-dev";
    zone = "CH-DK-2";
    buckets = "bucket-local-dev" ∷ [];
  };
  conditions = [];
  at_provider = record { key_id = ""; role_id = ""; key_name = ""; buckets = [] };
}

unfoldable pub new_provider_config_sample : ProviderConfig
new_provider_config_sample = record {
  secret_name = "api-secret";
  secret_namespace = "crossplane-system";
}

abbrev any_address : String → DBaaSParameters
any_address plan = record {
  termination_protection = false;
  size = record { plan = plan };
  ip_filter = "0.0.0.0/0" ∷ [];
}

module _ (monday : String) where
  abbrev monday_at : String → MaintenanceSpec
  monday_at time = record { day_of_week = monday; time_of_day = time }

  unfoldable pub new_mysql_sample : MySql
  new_mysql_sample = record {
    name = "mysql-local-dev";
    external_name = "";
    provider_config = some "provider-config";
    for_provider = record {
      maintenance = monday_at "12:00:00";
      backup = record { time_of_day = "13:00:00" };
      zone = "ch-dk-2";
      version = "8";
      dbaas = any_address "hobbyist-2";
      my_sql_settings = record { raw = "{\"default_time_zone\":\"+01:00\"}" };
    };
    conditions = [];
    at_provider = MysqlHandlers.empty_observation;
  }

  unfoldable pub new_postgresql_sample : PostgreSql
  new_postgresql_sample = record {
    name = "postgresql-local-dev";
    external_name = "";
    provider_config = some "provider-config";
    for_provider = record {
      maintenance = monday_at "12:00:00";
      backup = record { time_of_day = "13:00:00" };
      zone = "ch-dk-2";
      dbaas = any_address "hobbyist-2";
      version = "14";
      pg_settings = record { raw = "{\"timezone\":\"Europe/Zurich\"}" };
    };
    conditions = [];
    at_provider = PostgresHandlers.empty_observation;
  }

  unfoldable pub new_redis_sample : Redis
  new_redis_sample = record {
    name = "redis-local-dev";
    external_name = "";
    provider_config = some "provider-config";
    for_provider = record {
      maintenance = monday_at "12:00:00";
      zone = "ch-dk-2";
      dbaas = any_address "hobbyist-2";
      redis_settings = record { raw = "{\"maxmemory_policy\":\"noeviction\"}" };
    };
    conditions = [];
    at_provider = RedisHandlers.empty_observation;
  }

  unfoldable pub new_kafka_sample : Kafka
  new_kafka_sample = record {
    name = "kafka-local-dev";
    external_name = "";
    provider_config = some "provider-config";
    for_provider = record {
      maintenance = monday_at "12:00:00";
      zone = "ch-dk-2";
      dbaas = any_address "startup-2";
      ip_filter_is_nil = false;
      version = "";
      kafka_settings = record { raw = "{\"connections_max_idle_ms\": 60000}" };
      kafka_rest_enabled = false;
      kafka_rest_settings = record { raw = "" };
    };
    conditions = [];
    at_provider = KafkaReading.empty_observation;
  }

  unfoldable pub new_opensearch_sample : OpenSearch
  new_opensearch_sample = record {
    name = "opensearch-local-dev";
    external_name = "";
    provider_config = some "provider-config";
    for_provider = record {
      maintenance = monday_at "12:01:55";
      backup = record { time_of_day = "" };
      dbaas = any_address "hobbyist-2";
      zone = "ch-dk-2";
      major_version = "2";
      open_search_settings = record { raw = "" };
    };
    conditions = [];
    at_provider = OpenSearchHandlers.empty_observation;
  }
