-- ===== src/Tests/Samples.antt =====
-- The sample resources: what the webhooks say of them, and the files that they are written to.
use Prim.Native.String.{◌++◌}
use provider_exoscale.Prelude.{
  String, true, ◌≡◌, ◌↔◌, ◌⊎◌, refl, List, [], ◌∷◌, none, msg, ok, err, ◌==◌, if◌then◌else◌,
}
use mathlib.Core.List.{Memᴰ}
use provider_exoscale.Json.{JsonCodec, str, end, field}
use provider_exoscale.Dbaas.Creation.{Readable}
use provider_exoscale.Iam.Admission.{iam-admits_update_iff}
use provider_exoscale.Bucket.Webhook as BucketWebhook
use provider_exoscale.Iam.Webhook as IamWebhook
use provider_exoscale.Mysql.Webhook as MysqlWebhook
use provider_exoscale.Postgres.Webhook as PostgresWebhook
use provider_exoscale.OpenSearch.Webhook as OpenSearchWebhook
use provider_exoscale.Redis.Webhook as RedisWebhook
use provider_exoscale.Kafka.Webhook as KafkaWebhook
use provider_exoscale.Sample.{
  new_bucket_sample, new_iam_key_sample, new_mysql_sample, new_postgresql_sample, new_redis_sample,
  new_kafka_sample, new_opensearch_sample,
}
use provider_exoscale.Sample.Files.{
  Files, object_kind, iam_key_admission_request, main, samples, serialize_all, serialize,
  prepare_file,
}
use provider_exoscale.Sample.Laws.{samples_admitted_iff}

-- A decoder that reads the settings of one sample.
abbrev codec : JsonCodec
codec = record {
  unmarshal = λ s.
      if s == "{\"default_time_zone\":\"+01:00\"}"
      then ok (field "default_time_zone" (str "+01:00") end)
      else err (msg "unexpected text" []);
  marshal = λ m. ok "{}";
}

abbrev offered : List String
offered = "5" ∷ "8" ∷ []

samples_admitted_iff_example :
    ((MysqlWebhook.validate_create codec (ok offered) (new_mysql_sample "monday") ≡ ok tt) ↔ (
      Memᴰ "8" offered × Readable codec (new_mysql_sample "monday").for_provider.my_sql_settings))
    × ((PostgresWebhook.validate_create codec (ok offered) (new_postgresql_sample "monday") ≡ ok tt)
        ↔ (Memᴰ "14" offered
            × Readable codec (new_postgresql_sample "monday").for_provider.pg_settings))
    × ((OpenSearchWebhook.validate_create codec (ok offered) (new_opensearch_sample "monday")
          ≡ ok tt)
        ↔ Memᴰ "2" offered)
    × ((RedisWebhook.validate_create codec (new_redis_sample "monday") ≡ ok tt)
        ↔ Readable codec (new_redis_sample "monday").for_provider.redis_settings)
    × ((KafkaWebhook.validate_create_with_client codec (ok none) (new_kafka_sample "monday")
          ≡ ok tt)
        ↔ Readable codec (new_kafka_sample "monday").for_provider.kafka_settings)
    × (BucketWebhook.validate_create new_bucket_sample ≡ ok tt)
    × (IamWebhook.validate_create new_iam_key_sample ≡ ok tt)
samples_admitted_iff_example = samples_admitted_iff codec "monday" offered (ok none)

-- The update in the sample of an admission request.
iam-admits_update_iff_example :
    let a = iam_key_admission_request in
    (IamWebhook.validate_update a.old_object a.object ≡ ok tt) ↔ (
      ((a.old_object.at_provider.key_id ≡ "")
        ⊎ ((a.object.for_provider ≡ a.old_object.for_provider)
            × (a.object.secret_ref ≡ a.old_object.secret_ref)))
      × (IamWebhook.has_provider_config a.object.provider_config ≡ true))
iam-admits_update_iff_example =
    iam-admits_update_iff iam_key_admission_request.old_object iam_key_admission_request.object

sample_update_admitted :
    IamWebhook.validate_update iam_key_admission_request.old_object iam_key_admission_request.object
    ≡ ok tt
unfolding iam_key_admission_request IamWebhook.validate_update IamWebhook.compare_created
sample_update_admitted = refl

-- A file system that keeps the paths of the files that are written, the last one first.
abbrev disk : Files String (List String)
disk = record {
  add_to_scheme = λ w. (w, ok tt);
  mkdir_all = λ dir w. (w, ok tt);
  create = λ path w. (w, ok path);
  encode = λ object use_yaml path w. (path ∷ w, ok tt);
  join = λ dir file. dir ++ ("/" ++ file);
  to_lower = λ s. s;
}

files_written :
    (main disk ("generate" ∷ "samples" ∷ []) "monday" []).0
    ≡ "samples/exoscale.crossplane.io_OpenSearch.yaml" ∷ "samples/exoscale.crossplane.io_Kafka.yaml"
      ∷ "samples/exoscale.crossplane.io_Redis.yaml"
      ∷ "samples/exoscale.crossplane.io_PostgreSQL.yaml"
      ∷ "samples/exoscale.crossplane.io_MySQL.yaml"
      ∷ "samples/admission.k8s.io_AdmissionReview.json"
      ∷ "samples/exoscale.crossplane.io_ProviderConfig.yaml"
      ∷ "samples/exoscale.crossplane.io_IAMKey.yaml" ∷ "samples/exoscale.crossplane.io_Bucket.yaml"
      ∷ []
unfolding main samples serialize_all serialize prepare_file object_kind
files_written = refl
