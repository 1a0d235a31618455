-- ===== src/Operator/Laws.antt =====
-- What the start of the operator does, call by call: operator_command.go.
use provider_exoscale.Prelude.{
  String, Bool, true, false, not, ◌≡◌, refl, ap, ◌∙◌, List, [], ◌∷◌, none, some, Result, ok, err,
  panic, ◌==◌, if◌then◌else◌,
}
use provider_exoscale.Pipeline.{
  Step, new_step, when_step, after_step, Runner, RunsInOrder, run-skip,
}
use provider_exoscale.Operator.{Registry, setup_controllers, setup_webhooks}
use provider_exoscale.Operator.Command.{
  ManagerOptions, Runtime, OperatorCommand, called, with_manager, manager_options, get_config,
  create_manager, register_schemes, execute,
}

module _ {K M W : Type 0} (registry : Registry M W) (rt : Runtime K M W)
    (r : Runner (OperatorCommand K M W)) where
  -- A call, what follows it, and the name that its error is given.
  abbrev named :
      {A : Type 0} → String → W × Result A → (A → W → W × Result (Unit {0})) → W × Result (Unit {0})
  named name (w, ok a) next = next a w
  named name (w, err e) next = (w, err (r.step_error name e))
  named name (w, panic p) next = (w, panic p)

  abbrev finished : Unit {0} → W → W × Result (Unit {0})
  finished u w = (w, ok tt)

  -- The start of the operator, without the pipeline.
  abbrev pub start_up : ManagerOptions → Bool → W → W × Result (Unit {0})
  start_up options webhooks_enabled w = named "get config" (rt.get_config w) (λ k w.
      named "create manager" (rt.new_manager (some k) options w) (λ m w.
        named "register schemes" (named "register API schemes" (rt.add_to_scheme m w) finished)
          (λ u w. named "setup controllers" (setup_controllers registry m w) (λ u w.
            named "setup webhook server"
              (if webhooks_enabled then setup_webhooks registry m w else (w, ok tt))
              (λ u w. named "run manager" (rt.start m w) finished)))))

  -- What is seen of a run: the state of the process and the result.
  abbrev seen : OperatorCommand K M W × Result (Unit {0}) → W × Result (Unit {0})
  seen x = (x.0.world, x.1)

  named_after :
      {A : Type 0} (name : String) (o : W × Result A) (f g : A → W → W × Result (Unit {0}))
      → ((a : A) (w : W) → f a w ≡ g a w)
      → named name o f ≡ named name o g
  named_after name o f g h = ap (named name o) (λ i a w. h a w i)

  seen-called :
      {A : Type 0} (name : String) (set : A → W → OperatorCommand K M W)
      (unset : W → OperatorCommand K M W)
      (rest : OperatorCommand K M W → OperatorCommand K M W × Result (Unit {0})) (o : W × Result A)
      → ((w : W) → (unset w).world ≡ w)
      → seen (after_step rest (r.step_error name) (called set unset o))
        ≡ named name o (λ a w. seen (rest (set a w)))
  seen-called name set unset rest (w, ok a) kept = refl
  seen-called name set unset rest (w, err e) kept =
      ap (λ x. (x, err (r.step_error name e))) (kept w)
  seen-called name set unset rest (w, panic p) kept = ap (λ x. (x, panic p)) (kept w)

  module _ (laws : RunsInOrder r) where
    -- A step that makes a call.
    seen_step :
        {A : Type 0} (name : String)
        (act : OperatorCommand K M W → OperatorCommand K M W × Result (Unit {0}))
        (set : A → W → OperatorCommand K M W) (unset : W → OperatorCommand K M W)
        (rest : List (Step (OperatorCommand K M W))) (c : OperatorCommand K M W) (o : W × Result A)
        → act c ≡ called set unset o
        → ((w : W) → (unset w).world ≡ w)
        → seen (r.run (new_step name act ∷ rest) c)
          ≡ named name o (λ a w. seen (r.run rest (set a w)))
    seen_step name act set unset rest c o acted kept =
        ap seen (laws.run-cons (new_step name act) rest c)
        ∙ ap (λ x. seen (after_step (r.run rest) (r.step_error name) x)) acted
        ∙ seen-called name set unset (r.run rest) o kept

    nothing_left : (c : OperatorCommand K M W) → seen (r.run [] c) ≡ (c.world, ok tt)
    nothing_left c = ap seen (laws.run-nil c)

    module _ (c : OperatorCommand K M W) (k : K) (m : M) where
      -- The command once the manager is there.
      abbrev managed : W → OperatorCommand K M W
      managed w = record c { kubeconfig = some k; manager = some m; world = w }

      -- A step that gives the manager to a call.
      seen-managed :
          (name : String) (f : M → W → W × Result (Unit {0}))
          (rest : List (Step (OperatorCommand K M W))) (w : W)
          → seen (r.run (new_step name (with_manager f) ∷ rest) (managed w))
            ≡ named name (f m w) (λ u w. seen (r.run rest (managed w)))
      seen-managed name f rest w =
          seen_step name (with_manager f) (λ u. managed) managed rest (managed w) (f m w) refl
            (λ w. refl)

      started :
          (w : W)
          → seen (r.run (new_step "run manager" (with_manager rt.start) ∷ []) (managed w))
            ≡ named "run manager" (rt.start m w) finished
      started w =
          seen-managed "run manager" rt.start [] w
          ∙ named_after "run manager" (rt.start m w) _ _ (λ u w. nothing_left (managed w))

      served :
          (webhooks_enabled : Bool) (w : W)
          → seen (
              r.run
                (when_step
                    (λ c. webhooks_enabled)
                    "setup webhook server"
                    (with_manager (setup_webhooks registry))
                  ∷ new_step "run manager" (with_manager rt.start)
                  ∷ [])
                (managed w))
            ≡ named "setup webhook server"
                (if webhooks_enabled then setup_webhooks registry m w else (w, ok tt))
                (λ u w. named "run manager" (rt.start m w) finished)
      served true w =
          seen-managed "setup webhook server" (setup_webhooks registry) _ w
          ∙ named_after "setup webhook server" (setup_webhooks registry m w) _ _ (λ u w. started w)
      served false w =
          ap seen (
            run-skip r laws _ (new_step "run manager" (with_manager rt.start) ∷ []) (managed w)
              refl)
          ∙ started w

      nested_after :
          (o : W × Result (Unit {0}))
          → after_step
              (r.run [])
              (r.step_error "register API schemes")
              (called (λ u. managed) managed o)
            ≡ called (λ u. managed) managed (named "register API schemes" o finished)
      nested_after (w, ok u) = laws.run-nil (managed w)
      nested_after (w, err e) = refl
      nested_after (w, panic p) = refl

      registered :
          (w : W)
          → register_schemes registry rt r (managed w)
            ≡ called
                (λ u. managed)
                managed
                (named "register API schemes" (rt.add_to_scheme m w) finished)
      unfolding register_schemes
      registered w =
          laws.run-cons (new_step "register API schemes" (with_manager rt.add_to_scheme)) []
            (managed w)
          ∙ nested_after (rt.add_to_scheme m w)

      set_up :
          (webhooks_enabled : Bool) (w : W)
          → seen (
              r.run
                (new_step "register schemes" (register_schemes registry rt r)
                  ∷ new_step "setup controllers" (with_manager (setup_controllers registry))
                  ∷ when_step
                      (λ c. webhooks_enabled)
                      "setup webhook server"
                      (with_manager (setup_webhooks registry))
                  ∷ new_step "run manager" (with_manager rt.start)
                  ∷ [])
                (managed w))
            ≡ named "register schemes"
                (named "register API schemes" (rt.add_to_scheme m w) finished)
                (λ u w. named "setup controllers" (setup_controllers registry m w) (λ u w.
                  named "setup webhook server"
                    (if webhooks_enabled then setup_webhooks registry m w else (w, ok tt))
                    (λ u w. named "run manager" (rt.start m w) finished)))
      set_up webhooks_enabled w =
          seen_step "register schemes" (register_schemes registry rt r) (λ u. managed) managed _
            (managed w) (named "register API schemes" (rt.add_to_scheme m w) finished)
            (registered w) (λ w. refl)
          ∙ named_after "register schemes"
              (named "register API schemes" (rt.add_to_scheme m w) finished) _ _
              (λ u w.
                seen-managed "setup controllers" (setup_controllers registry) _ w
                ∙ named_after "setup controllers" (setup_controllers registry m w) _ _
                    (λ u w. served webhooks_enabled w))

    -- The command does the calls of `start_up` in their order, and stops at the first that returns no
    -- value, with the names of the steps in its error: it gets the configuration, makes the manager with
    -- its options, registers the API, sets up the controllers, the webhooks exactly if there is a directory
    -- of certificates, and only then starts the manager. The state of the process and the result are those
    -- of `start_up`, whatever configuration and manager the command had before.
    pub execute-start_up :
        (c : OperatorCommand K M W)
        → let (c', result) = execute registry rt r c in
          (c'.world, result)
          ≡ start_up (manager_options registry rt r c) (not (c.webhook_cert_dir == "")) c.world
    unfolding execute get_config create_manager
    execute-start_up c =
        seen_step "get config" (get_config registry rt r)
          (λ k w. record c { kubeconfig = some k; world = w })
          (λ w. record c { kubeconfig = none; world = w }) _ c (rt.get_config c.world) refl
          (λ w. refl)
        ∙ named_after "get config" (rt.get_config c.world) _ _ (λ k w.
          let d : OperatorCommand K M W = record c { kubeconfig = some k; world = w } in
          let o = rt.new_manager (some k) (manager_options registry rt r c) w in
          seen_step "create manager" (create_manager registry rt r)
            (λ m w. record d { manager = some m; world = w })
            (λ w. record d { manager = none; world = w }) _ d o refl (λ w. refl)
          ∙ named_after "create manager" o _ _
              (λ m w. set_up c k m (not (c.webhook_cert_dir == "")) w))
