-- ===== src/Sample/Files.antt =====
-- generate_sample.go: how the samples are written to files. The file system, the serialiser of
-- Kubernetes, strings.ToLower and filepath.Join are parameters; log.Fatal ends the run with its error.
use Prim.Native.String.{◌++◌}
use provider_exoscale.Prelude.{
  String, Bool, true, false, List, [], ◌∷◌, Result, ok, err, panic, index_range, if◌then◌else◌,
}
use provider_exoscale.Connector.{ProviderConfig}
use provider_exoscale.Bucket.{Bucket}
use provider_exoscale.Iam.{IamKey}
use provider_exoscale.Mysql.{MySql}
use provider_exoscale.Postgres.{PostgreSql}
use provider_exoscale.Redis.{Redis}
use provider_exoscale.Kafka.{Kafka}
use provider_exoscale.OpenSearch.{OpenSearch}
use provider_exoscale.Sample.{
  new_bucket_sample, new_iam_key_sample, new_provider_config_sample, new_mysql_sample,
  new_postgresql_sample, new_redis_sample, new_kafka_sample, new_opensearch_sample,
}

-- metav1.GroupVersionKind.
pub record GroupVersionKind : Type 0 where
  pub group : String
  pub version : String
  pub kind : String

abbrev pub kind_of_exoscale : String → GroupVersionKind
kind_of_exoscale kind = record { group = "exoscale.crossplane.io"; version = "v1"; kind = kind }

-- The AdmissionReview of generateIAMKeyAdmissionRequest: its request, with the user who asks. The
-- resource, and the kinds that repeat the first one, are left out.
pub record AdmissionReview : Type 0 where
  pub object : IamKey
  pub old_object : IamKey
  pub kind : GroupVersionKind
  pub name : String
  pub operation : String
  pub username : String
  pub groups : List String

pub data Object : Type 0 where
  bucket_object : Bucket → Object
  iam_key_object : IamKey → Object
  provider_config_object : ProviderConfig → Object
  admission_object : AdmissionReview → Object
  mysql_object : MySql → Object
  postgresql_object : PostgreSql → Object
  redis_object : Redis → Object
  kafka_object : Kafka → Object
  opensearch_object : OpenSearch → Object

-- The TypeMeta of the sample, as GetObjectKind gives it back.
unfoldable pub object_kind : Object → GroupVersionKind
object_kind (bucket_object b) = kind_of_exoscale "Bucket"
object_kind (iam_key_object k) = kind_of_exoscale "IAMKey"
object_kind (provider_config_object p) = kind_of_exoscale "ProviderConfig"
object_kind (admission_object a) = record {
  group = "admission.k8s.io";
  version = "v1";
  kind = "AdmissionReview";
}
object_kind (mysql_object i) = kind_of_exoscale "MySQL"
object_kind (postgresql_object i) = kind_of_exoscale "PostgreSQL"
object_kind (redis_object i) = kind_of_exoscale "Redis"
object_kind (kafka_object i) = kind_of_exoscale "Kafka"
object_kind (opensearch_object i) = kind_of_exoscale "OpenSearch"

-- The update of the sample key to another name.
unfoldable pub iam_key_admission_request : AdmissionReview
unfolding new_iam_key_sample
iam_key_admission_request =
    let old_spec = new_iam_key_sample in
    let new_spec = new_iam_key_sample in
    let p = new_spec.for_provider in
    let o = old_spec.at_provider in
    record {
      object = record new_spec { for_provider = record p { key_name = "another" } };
      old_object = record old_spec {
        at_provider = record o { key_name = old_spec.for_provider.key_name };
      };
      kind = kind_of_exoscale "IAMKey";
      name = old_spec.name;
      operation = "UPDATE";
      username = "admin";
      groups = "system:authenticated" ∷ [];
    }

pub record Files (F W : Type 0) : Type 0 where
  pub add_to_scheme : W → W × Result (Unit {0})
  pub mkdir_all : String → W → W × Result (Unit {0})
  pub create : String → W → W × Result F
  pub encode : Object → Bool → F → W → W × Result (Unit {0})
  pub join : String → String → String
  pub to_lower : String → String

-- failIfError, and what follows it.
abbrev fail_if_error : {A B W : Type 0} → W × Result A → (A → W → W × Result B) → W × Result B
fail_if_error o next = elim o.1 [
  | ok a ↦ next a o.0
  | err e ↦ (o.0, err e)
  | panic p ↦ (o.0, panic p)
]

module _ {F W : Type 0} (fs : Files F W) (args : List String) (monday : String) where
  -- In the directory of the first argument.
  unfoldable pub prepare_file : String → W → W × Result F
  prepare_file file w = elim args [
    | [] ↦ (w, panic index_range)
    | program ∷ rest ↦ elim rest [
      | [] ↦ (w, panic index_range)
      | dir ∷ others ↦ fail_if_error (fs.mkdir_all dir w) (λ u w. fs.create (fs.join dir file) w)
    ]
  ]

  unfoldable pub serialize : Object → Bool → W → W × Result (Unit {0})
  serialize object use_yaml w =
      let gvk = object_kind object in
      let file_ext = if use_yaml then "yaml" else "json" in
      let file_name =
        fs.to_lower gvk.group ++ ("_" ++ (fs.to_lower gvk.kind ++ ("." ++ file_ext))) in
      fail_if_error (prepare_file file_name w) (λ f w. fs.encode object use_yaml f w)

  -- The samples in the order of main, with whether they are written as YAML.
  unfoldable pub samples : List (Object × Bool)
  samples =
      (bucket_object new_bucket_sample, true)
      ∷ (iam_key_object new_iam_key_sample, true)
      ∷ (provider_config_object new_provider_config_sample, true)
      ∷ (admission_object iam_key_admission_request, false)
      ∷ (mysql_object (new_mysql_sample monday), true)
      ∷ (postgresql_object (new_postgresql_sample monday), true)
      ∷ (redis_object (new_redis_sample monday), true)
      ∷ (kafka_object (new_kafka_sample monday), true)
      ∷ (opensearch_object (new_opensearch_sample monday), true)
      ∷ []

  unfoldable pub serialize_all : List (Object × Bool) → W → W × Result (Unit {0})
  serialize_all [] w = (w, ok tt)
  serialize_all ((object, use_yaml) ∷ rest) w =
      fail_if_error (serialize object use_yaml w) (λ u w. serialize_all rest w)

  unfoldable pub main : W → W × Result (Unit {0})
  main w = fail_if_error (fs.add_to_scheme w) (λ u w. serialize_all samples w)
