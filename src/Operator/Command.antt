-- ===== src/Operator/Command.antt =====
-- operator_command.go: the command that starts the operator, a pipeline over the configuration of the
-- cluster, the manager and a state `W` of the process.
use provider_exoscale.Prelude.{
  ℕ, String, Bool, not, List, [], ◌∷◌, Option, none, some, Result, ok, err, panic, nil_deref, ◌==◌,
}
use provider_exoscale.Pipeline.{Step, new_step, when_step, Runner}
use provider_exoscale.Operator.{Registry, setup_controllers, setup_webhooks}

-- ctrl.Options, with the times in seconds; the resource lock, a constant of client-go, is left out.
pub record ManagerOptions : Type 0 where
  pub leader_election : Bool
  pub leader_election_id : String
  pub lease_duration : ℕ
  pub renew_deadline : ℕ
  pub webhook_port : ℕ
  pub webhook_cert_dir : String

-- ctrl.GetConfig, ctrl.NewManager, apis.AddToScheme and Manager.Start.
pub record Runtime (K M W : Type 0) : Type 0 where
  pub get_config : W → W × Result K
  pub new_manager : Option K → ManagerOptions → W → W × Result M
  pub add_to_scheme : M → W → W × Result (Unit {0})
  pub start : M → W → W × Result (Unit {0})

-- operatorCommand, with the state of the process.
pub record OperatorCommand (K M W : Type 0) : Type 0 where
  pub leader_election_enabled : Bool
  pub webhook_cert_dir : String
  pub kubeconfig : Option K
  pub manager : Option M
  pub world : W

module _ {K M W : Type 0} where
  -- A call, and the command after it: where it returns a value, and where it returns none.
  abbrev pub called :
      {A : Type 0}
      → (A → W → OperatorCommand K M W)
      → (W → OperatorCommand K M W)
      → W × Result A
      → OperatorCommand K M W × Result (Unit {0})
  called set unset (w, ok a) = (set a w, ok tt)
  called set unset (w, err e) = (unset w, err e)
  called set unset (w, panic p) = (unset w, panic p)

  abbrev pub in_world : OperatorCommand K M W → W → OperatorCommand K M W
  in_world c w = record c { world = w }

  -- What is done with the manager, which must not be nil.
  abbrev pub with_manager :
      (M → W → W × Result (Unit {0}))
      → OperatorCommand K M W
      → OperatorCommand K M W × Result (Unit {0})
  with_manager f c = elim c.manager [
    | none ↦ (c, panic nil_deref)
    | some m ↦ called (λ u w. in_world c w) (in_world c) (f m c.world)
  ]

module _ {K M W : Type 0} (registry : Registry M W) (rt : Runtime K M W)
    (r : Runner (OperatorCommand K M W)) where
  unfoldable pub manager_options : OperatorCommand K M W → ManagerOptions
  manager_options c = record {
    leader_election = c.leader_election_enabled;
    leader_election_id = "leader-election-provider-exoscale";
    lease_duration = 60;
    renew_deadline = 50;
    webhook_port = 9443;
    webhook_cert_dir = c.webhook_cert_dir;
  }

  unfoldable pub get_config : OperatorCommand K M W → OperatorCommand K M W × Result (Unit {0})
  get_config c =
      called (λ k w. record c { kubeconfig = some k; world = w })
        (λ w. record c { kubeconfig = none; world = w }) (rt.get_config c.world)

  unfoldable pub create_manager : OperatorCommand K M W → OperatorCommand K M W × Result (Unit {0})
  unfolding manager_options
  create_manager c =
      called (λ m w. record c { manager = some m; world = w })
        (λ w. record c { manager = none; world = w })
        (rt.new_manager c.kubeconfig (manager_options c) c.world)

  -- The nested pipeline "register schemes".
  unfoldable pub register_schemes :
      OperatorCommand K M W → OperatorCommand K M W × Result (Unit {0})
  register_schemes c =
      r.run (new_step "register API schemes" (with_manager rt.add_to_scheme) ∷ []) c

  abbrev pub command_steps : Bool → List (Step (OperatorCommand K M W))
  command_steps webhooks_enabled =
      new_step "get config" get_config
      ∷ new_step "create manager" create_manager
      ∷ new_step "register schemes" register_schemes
      ∷ new_step "setup controllers" (with_manager (setup_controllers registry))
      ∷ when_step (λ c. webhooks_enabled) "setup webhook server"
          (with_manager (setup_webhooks registry))
      ∷ new_step "run manager" (with_manager rt.start)
      ∷ []

  unfoldable pub execute : OperatorCommand K M W → OperatorCommand K M W × Result (Unit {0})
  execute c = r.run (command_steps (not (c.webhook_cert_dir == ""))) c
