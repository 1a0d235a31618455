-- ===== src/Pipeline.antt =====
-- github.com/ccremer/go-command-pipeline as the controllers use it: steps over a mutable context,
-- some of them under a condition (`When`). The runner is a parameter; `RunsInOrder` is its documented
-- behaviour: the steps run in order, until one of them returns an error.
use provider_exoscale.Prelude.{
  String, Bool, true, false, List, [], ◌∷◌, Error, Result, Fault, ok, err, panic, ◌≡◌, refl, ap,
  ◌∙◌, if◌then◌else◌, Result-cases, inl, inr,
}

pub record Step (S : Type 0) : Type 0 where
  pub name : String
  pub enabled : S → Bool
  pub action : S → S × Result (Unit {0})

abbrev pub new_step : {S : Type 0} → String → (S → S × Result (Unit {0})) → Step S
new_step name action = record { name = name; enabled = λ s. true; action = action }

abbrev pub when_step : {S : Type 0} → (S → Bool) → String → (S → S × Result (Unit {0})) → Step S
when_step enabled name action = record { name = name; enabled = enabled; action = action }

-- RunWithContext, and the error that it makes of a step's.
pub record Runner (S : Type 0) : Type 0 where
  pub run : List (Step S) → S → S × Result (Unit {0})
  pub step_error : String → Error → Error

-- What follows the outcome of a step.
abbrev pub after_step :
    {S : Type 0}
    → (S → S × Result (Unit {0}))
    → (Error → Error)
    → S × Result (Unit {0})
    → S × Result (Unit {0})
after_step rest f o = elim o.1 [
  | ok u ↦ rest o.0
  | err e ↦ (o.0, err (f e))
  | panic p ↦ (o.0, panic p)
]

pub record RunsInOrder {S : Type 0} (r : Runner S) : Type 0 where
  pub run-nil : (s : S) → r.run [] s ≡ (s, ok tt)
  pub run-cons :
      (st : Step S) (rest : List (Step S)) (s : S)
      → r.run (st ∷ rest) s ≡ (
          if st.enabled s
          then after_step (r.run rest) (r.step_error st.name) (st.action s)
          else r.run rest s)

-- A runner that does so.
unfoldable pub run_in_order : {S : Type 0} → List (Step S) → S → S × Result (Unit {0})
run_in_order [] s = (s, ok tt)
run_in_order (st ∷ rest) s =
    let later = run_in_order rest s in
    if st.enabled s then after_step (run_in_order rest) (λ e. e) (st.action s) else later

abbrev pub in_order : {S : Type 0} → Runner S
in_order = record { run = run_in_order; step_error = λ name e. e }

pub in_order-RunsInOrder : {S : Type 0} → RunsInOrder (in_order {S = S})
unfolding run_in_order
in_order-RunsInOrder = record { run-nil = λ s. refl; run-cons = λ st rest s. refl }

module _ {S : Type 0} (r : Runner S) (laws : RunsInOrder r) where
  -- A last step that returns no error.
  pub run-last :
      (st : Step S) (s : S)
      → st.enabled s ≡ true
      → (st.action s).1 ≡ ok tt
      → r.run (st ∷ []) s ≡ ((st.action s).0, ok tt)
  run-last st s on done =
      rw (laws.run-cons st [] s) (rw on (rw done (laws.run-nil (st.action s).0)))

  -- A step that is skipped.
  pub run-skip :
      (st : Step S) (rest : List (Step S)) (s : S)
      → st.enabled s ≡ false
      → r.run (st ∷ rest) s ≡ r.run rest s
  run-skip st rest s off = rw (laws.run-cons st rest s) (rw off refl)

  -- A step that returns an error ends the run.
  pub run-fail :
      (st : Step S) (rest : List (Step S)) (s : S) (e : Error)
      → st.enabled s ≡ true
      → (st.action s).1 ≡ err e
      → r.run (st ∷ rest) s ≡ ((st.action s).0, err (r.step_error st.name e))
  run-fail st rest s e on failed = rw (laws.run-cons st rest s) (rw on (rw failed refl))

  pub run-panic :
      (st : Step S) (rest : List (Step S)) (s : S) (p : Fault)
      → st.enabled s ≡ true
      → (st.action s).1 ≡ panic p
      → r.run (st ∷ rest) s ≡ ((st.action s).0, panic p)
  run-panic st rest s p on failed = rw (laws.run-cons st rest s) (rw on (rw failed refl))

  pub run-next :
      (st : Step S) (rest : List (Step S)) (s : S)
      → st.enabled s ≡ true
      → (st.action s).1 ≡ ok tt
      → r.run (st ∷ rest) s ≡ r.run rest (st.action s).0
  run-next st rest s on done = rw (laws.run-cons st rest s) (rw on (rw done refl))

  -- A step whose action gives a known context is followed by the rest of the steps.
  pub run-new_step :
      (name : String) (f : S → S × Result (Unit {0})) (rest : List (Step S)) (c d : S)
      → f c ≡ (d, ok tt)
      → r.run (new_step name f ∷ rest) c ≡ r.run rest d
  run-new_step name f rest c d acted =
      run-next (new_step name f) rest c refl (ap (λ x. x.1) acted) ∙ ap (λ x. r.run rest x.0) acted

  -- Where a run returns no error, its first step has returned none.
  pub run_succeeds :
      (st : Step S) (rest : List (Step S)) (s : S)
      → st.enabled s ≡ true
      → (r.run (st ∷ rest) s).1 ≡ ok tt
      → ((st.action s).1 ≡ ok tt) × (r.run (st ∷ rest) s ≡ r.run rest (st.action s).0)
  run_succeeds st rest s on succeeded = elim (Result-cases (st.action s).1) [
    | inl (u, done) ↦ (done, run-next st rest s on done)
    | inr (inl (e, failed)) ↦
        let ended = ap (λ x. x.1) (run-fail st rest s e on failed) in absurd cc
    | inr (inr (p, failed)) ↦
        let ended = ap (λ x. x.1) (run-panic st rest s p on failed) in absurd cc
  ]
