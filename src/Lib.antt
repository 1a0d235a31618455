-- ===== src/Lib.antt =====
-- A model of provider-exoscale, the Crossplane provider for Exoscale, and of what its parts
-- guarantee. The provider reconciles Kubernetes resources with services of Exoscale: for each kind
-- of resource there is a controller with the handlers Observe, Create, Update and Delete of
-- crossplane-runtime, a connector and an admission webhook. The controllers share the mapper, the
-- schemas of settings and the checks of the webhooks.
--
-- Which file models what:
--   Json, Mapper       operator/mapper (alias.go, dbaas.go): JSON values, comparisons, conversions
--   Time, Api          apis/exoscale/v1/dbaas_types.go and conditions.go
--   Settings           internal/settings/schema.go
--   Webhook            operator/webhook/validate.go
--   Pipeline, Managed  what the code uses of go-command-pipeline and crossplane-runtime
--   Bucket             operator/bucketcontroller and apis/exoscale/v1/bucket_types.go
--   Iam                operator/iamkeycontroller and apis/exoscale/v1/iam_types.go
--   Connector          operator/pipelineutil/exoscale_connector.go and operator/common/utils.go
--   Dbaas              what the five controllers for databases have in common
--   Mysql              operator/mysqlcontroller and apis/exoscale/v1/mysql_types.go
--   Postgres           operator/postgresqlcontroller and apis/exoscale/v1/postgresql_types.go
--   Kafka              operator/kafkacontroller and apis/exoscale/v1/kafka_types.go
--   OpenSearch         operator/opensearchcontroller and apis/exoscale/v1/opensearch_types.go
--   Redis              operator/rediscontroller and apis/exoscale/v1/redis_types.go
--   Operator           operator_command.go, flags.go, logger.go, operator/operator.go, and
--                      setup.go of the controllers
--   Sample             generate_sample.go
--   Tests              runs on concrete inputs
--
-- A Go function is a function of the same name in snake case. What it returns is a `Result`: a value,
-- an error that the code returns, or a run-time panic (a nil pointer, a failed comparison of
-- interface values, an index out of range). A handler that changes its resource or a remote service
-- takes their states and returns the new ones; a step of a pipeline is a function on its context. A
-- pointer or slice whose nil the code can meet is an `Option`. A Go map is a list of entries in the
-- order in which a loop visits it. Log messages, and the operands of most error messages, are left
-- out.
--
-- Parameters stand for code that is not in the repository: the clients of Exoscale, S3 and
-- Kubernetes (over a type `W` of remote states), encoding/json, net/url, hashicorp/go-version, the
-- report of google/go-cmp (its check that a comparer is symmetric, with its panic, is written out in
-- Kafka/Reading), Unicode case folding, the conditions of crossplane-runtime, the runner of
-- pipelines, controller-runtime's manager, zap, and the file system and the serialiser of the generator
-- of samples. `RunsInOrder` and `FirstMatch` are the documented behaviour of the runner and of IAM
-- policies, `KeepsSupported` that of encoding/json on settings, `IsOrdered` that of go-version on the
-- order of versions, `UpdatesDescription` that of the call UpdateIAMRole.
--
-- The interface `Database` of Dbaas/Lifecycle is what the life of a database needs of its kind: the
-- updates that its webhook admits and what Observe writes into its status. MySQL, PostgreSQL and Kafka
-- fill it; Bucket/Lifecycle is the life of a bucket, with steps of its own.
--
-- Every function is structurally recursive. The printing of decimal digits in Time/Format alone has a
-- fuel, of 20 digits, where an int64 has 19 at most. The retry of CreateAPIKey has the ten rounds of
-- the code. ParseInt is bounded at 2^63 - 1 as in strconv; the level of the logger is an int8, whose
-- wrap-around is written out.
--
-- A service that has been given a request is `provisioned`: it reports the fields of the request, and
-- the rest of its report is any. In the properties that say that a handler converges, this and the
-- reads that succeed are hypotheses on the client.
--
-- Not modelled: generated code (deep copies, accessors), the registration of the types with a scheme,
-- the declarations of ProviderConfig but for its reference to a secret, and the declaration of the
-- command line (main.go), which only passes values to libraries.
pub mod Prelude
pub mod Json
pub mod Time
pub mod Api
pub mod Mapper
pub mod Webhook
pub mod Settings
pub mod Pipeline
pub mod Managed
pub mod Bucket
pub mod Iam
pub mod Connector
pub mod Dbaas
pub mod Mysql
pub mod Postgres
pub mod Kafka
pub mod OpenSearch
pub mod Redis
pub mod Operator
pub mod Sample
pub mod Tests
