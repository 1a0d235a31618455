-- ===== src/Tests/Operators.antt =====
-- A start of the operator.
use provider_exoscale.Prelude.{◌↔◌, ◌≤◌, ◌<◌, String, false, ◌≡◌, List, [], ◌∷◌, none, Result, ok}
use provider_exoscale.Pipeline.{in_order, in_order-RunsInOrder}
use provider_exoscale.Operator.{Registry, setup_all, setup_controllers}
use provider_exoscale.Operator.Command.{Runtime, OperatorCommand, execute}
use provider_exoscale.Prelude.Int.{pos}
use provider_exoscale.Operator.Logging.{zap_level, negated, zap_level_iff}
use provider_exoscale.Operator.Laws.{execute-start_up}

-- The state of the process is what has been done, the last first.
abbrev registry : Registry String (List String)
registry = record {
  to_lower = λ s. s;
  group_kind = λ group kind. kind;
  managed_name = λ s. s;
  config_name = λ s. s;
  complete_controller = λ m c w. (c.kind ∷ w, ok tt);
  complete_webhook = λ m h w. ("webhook" ∷ w, ok tt);
}

abbrev rt : Runtime String String (List String)
rt = record {
  get_config = λ w. ("config" ∷ w, ok "cluster");
  new_manager = λ k options w. ("manager" ∷ w, ok "manager");
  add_to_scheme = λ m w. ("scheme" ∷ w, ok tt);
  start = λ m w. ("start" ∷ w, ok tt);
}

abbrev command : String → OperatorCommand String String (List String)
command webhook_cert_dir = record {
  leader_election_enabled = false;
  webhook_cert_dir = webhook_cert_dir;
  kubeconfig = none;
  manager = none;
  world = [];
}

-- Without a directory of certificates there are no webhooks.
execute-start_up_example :
    let (c', result) = execute registry rt in_order (command "") in
    ◌≡◌ {A = List String × Result (Unit {0})}
      (c'.world, result)
      (
        "start" ∷ "OpenSearch" ∷ "Kafka" ∷ "Redis" ∷ "PostgreSQL" ∷ "MySQL" ∷ "IAMKey"
            ∷ "ProviderConfig" ∷ "Bucket" ∷ "scheme" ∷ "manager" ∷ "config" ∷ [],
        ok tt,
      )
unfolding setup_controllers setup_all
execute-start_up_example = execute-start_up registry rt in_order in_order-RunsInOrder (command "")

-- A verbosity of 200 gives the level 56.
zap_level_iff_example :
    ((zap_level (pos 200) ≡ negated 200) ↔ (200 ≤ 128))
    × (128 < 200 → 200 < 256 → zap_level (pos 200) ≡ pos 56)
zap_level_iff_example = zap_level_iff 200
