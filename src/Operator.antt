-- ===== src/Operator.antt =====
-- operator/operator.go and the SetupController and SetupWebhook of the controllers: what is registered
-- with the manager of controller-runtime. The registration itself (`complete_controller`,
-- `complete_webhook`) and the names that the libraries make of a kind are parameters.
pub mod Command
pub mod Laws
pub mod Logging
use provider_exoscale.Prelude.{
  ℕ, String, Bool, true, false, List, [], ◌∷◌, Option, none, some, Result, ok, err, panic, ◌*◌,
}

-- The reconciler of a controller: of managed resources of a kind, with its intervals in seconds and
-- whether connection secrets are published, or of ProviderConfigs and their usages.
pub data Reconciler : Type 0 where
  managed_reconciler : String → ℕ → Option ℕ → Bool → Reconciler
  config_reconciler : String → String → Reconciler

-- A controller: its name, the kind that it is for, the kinds that it watches besides, its reconciler.
pub record Controller : Type 0 where
  pub name : String
  pub kind : String
  pub watched : List String
  pub reconciler : Reconciler

-- A webhook: the kind that it is for, and the name of its logger.
pub record Webhook : Type 0 where
  pub kind : String
  pub logger : String

pub record Registry (M W : Type 0) : Type 0 where
  pub to_lower : String → String
  -- schema.GroupKind.String.
  pub group_kind : String → String → String
  -- managed.ControllerName and providerconfig.ControllerName.
  pub managed_name : String → String
  pub config_name : String → String
  pub complete_controller : M → Controller → W → W × Result (Unit {0})
  pub complete_webhook : M → Webhook → W → W × Result (Unit {0})

-- The loop over the set-up functions, which an error ends.
unfoldable pub setup_all :
    {W : Type 0} → List (W → W × Result (Unit {0})) → W → W × Result (Unit {0})
setup_all [] w = (w, ok tt)
setup_all (setup ∷ setups) w =
    let o = setup w in
    elim o.1 [ ok u ↦ setup_all setups o.0 | err e ↦ (o.0, err e) | panic p ↦ (o.0, panic p) ]

module _ {M W : Type 0} (registry : Registry M W) where
  abbrev exoscale_kind : String → String
  exoscale_kind kind = registry.group_kind "exoscale.crossplane.io" kind

  abbrev managed_controller : String → String → ℕ → Option ℕ → Controller
  managed_controller name kind poll_interval grace_period = record {
    name = name;
    kind = kind;
    watched = [];
    reconciler = managed_reconciler kind poll_interval grace_period true;
  }

  abbrev pub bucket_controller : Controller
  bucket_controller =
      managed_controller (registry.managed_name (exoscale_kind "Bucket")) "Bucket" (60 * 60) none

  abbrev pub config_controller : Controller
  config_controller = record {
    name = registry.config_name (exoscale_kind "ProviderConfig");
    kind = "ProviderConfig";
    watched = "ProviderConfigUsage" ∷ [];
    reconciler = config_reconciler "ProviderConfig" "ProviderConfigUsageList";
  }

  abbrev pub iam_key_controller : Controller
  iam_key_controller =
      managed_controller (registry.to_lower (exoscale_kind "IAMKey")) "IAMKey" (60 * 60) none

  abbrev pub mysql_controller : Controller
  mysql_controller = managed_controller (registry.to_lower (exoscale_kind "MySQL")) "MySQL" 60 none

  abbrev pub postgresql_controller : Controller
  postgresql_controller =
      managed_controller (registry.to_lower (exoscale_kind "PostgreSQL")) "PostgreSQL" 60 none

  abbrev pub redis_controller : Controller
  redis_controller =
      managed_controller (registry.to_lower (exoscale_kind "Redis")) "Redis" 60 (some 30)

  abbrev pub kafka_controller : Controller
  kafka_controller =
      managed_controller (registry.to_lower (exoscale_kind "Kafka")) "Kafka" 60 (some 30)

  abbrev pub opensearch_controller : Controller
  opensearch_controller = managed_controller "opensearch" "OpenSearch" 60 none

  -- SetupControllers.
  unfoldable pub setup_controllers : M → W → W × Result (Unit {0})
  unfolding setup_all
  setup_controllers mgr = setup_all (
      registry.complete_controller mgr bucket_controller
      ∷ registry.complete_controller mgr config_controller
      ∷ registry.complete_controller mgr iam_key_controller
      ∷ registry.complete_controller mgr mysql_controller
      ∷ registry.complete_controller mgr postgresql_controller
      ∷ registry.complete_controller mgr redis_controller
      ∷ registry.complete_controller mgr kafka_controller
      ∷ registry.complete_controller mgr opensearch_controller
      ∷ [])

  abbrev kind_webhook : String → Webhook
  kind_webhook kind = record { kind = kind; logger = registry.to_lower kind }

  abbrev pub bucket_webhook : Webhook
  bucket_webhook = kind_webhook "Bucket"

  abbrev pub iam_key_webhook : Webhook
  iam_key_webhook = kind_webhook "IAMKey"

  abbrev pub mysql_webhook : Webhook
  mysql_webhook = kind_webhook "MySQL"

  abbrev pub postgresql_webhook : Webhook
  postgresql_webhook = kind_webhook "PostgreSQL"

  abbrev pub redis_webhook : Webhook
  redis_webhook = kind_webhook "Redis"

  abbrev pub kafka_webhook : Webhook
  kafka_webhook = kind_webhook "Kafka"

  abbrev pub opensearch_webhook : Webhook
  opensearch_webhook = kind_webhook "OpenSearch"

  -- SetupWebhooks: one for every kind of managed resource.
  unfoldable pub setup_webhooks : M → W → W × Result (Unit {0})
  unfolding setup_all
  setup_webhooks mgr = setup_all (
      registry.complete_webhook mgr bucket_webhook
      ∷ registry.complete_webhook mgr iam_key_webhook
      ∷ registry.complete_webhook mgr mysql_webhook
      ∷ registry.complete_webhook mgr postgresql_webhook
      ∷ registry.complete_webhook mgr redis_webhook
      ∷ registry.complete_webhook mgr kafka_webhook
      ∷ registry.complete_webhook mgr opensearch_webhook
      ∷ [])
