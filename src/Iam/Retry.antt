-- ===== src/Iam/Retry.antt =====
-- operator/iamkeycontroller/create.go: the loop over CreateAPIKey.
use provider_exoscale.Prelude.{
  ℕ, zero, suc, String, true, ◌≡◌, ◌≤◌, ◌<◌, inl, inr, refl, sym, ap, ◌∙◌, Fault, if◌then◌else◌,
  Error, Result, ok, err, panic, arith, Result-cases,
}
use provider_exoscale.Iam.{Context}
use provider_exoscale.Iam.Role.{create_role}
use provider_exoscale.Iam.Create.{
  Operation, KeyCreated, CreateApi, retry_create, key_created, role_created, create_iam_key,
}

abbrev pub Failed : Result KeyCreated → Type 0
Failed r = (e : Error) × (r ≡ err e)

module _ {W : Type 0} (api : CreateApi W) (name role : String) where
  -- The remote side after that many calls of CreateAPIKey.
  abbrev pub after_calls : ℕ → W → W
  after_calls zero w = w
  after_calls (suc n) w = after_calls n (api.create_api_key name role w).0

  -- The answer to the call after that many calls.
  abbrev pub answer_after : ℕ → W → Result KeyCreated
  answer_after n w = (api.create_api_key name role (after_calls n w)).1

  -- The loop ends with the answer to the call after `n` failed ones.
  abbrev pub EndsAfter : ℕ → ℕ → W → Type 0
  EndsAfter rounds n w =
      (n ≤ rounds)
      × ((j : ℕ) → j < n → Failed (answer_after j w))
      × (retry_create api rounds name role w ≡ api.create_api_key name role (after_calls n w))
      × (Failed (answer_after n w) → n ≡ rounds)

  not_below_zero : {A : Type 0} (j : ℕ) → j < zero → A
  not_below_zero j small = ground arith

  no_error : {A : Type 0} (r : Result KeyCreated) (k : KeyCreated) → r ≡ ok k → Failed r → A
  no_error r k here (e, failed) = cc

  no_error_panic : {A : Type 0} (r : Result KeyCreated) (p : Fault) → r ≡ panic p → Failed r → A
  no_error_panic r p here (e, failed) = cc

  one_call :
      (rounds : ℕ) (w : W)
      → retry_create api rounds name role w ≡ api.create_api_key name role w
      → (Failed (answer_after zero w) → zero ≡ rounds)
      → EndsAfter rounds zero w
  one_call rounds w e last = (ground arith, (λ j. not_below_zero j), e, last)

  earlier-Failed :
      (n : ℕ) (w : W) (e : Error)
      → answer_after zero w ≡ err e
      → ((j : ℕ) → j < n → Failed (answer_after j (api.create_api_key name role w).0))
      → (j : ℕ) → j < suc n
      → Failed (answer_after j w)
  earlier-Failed n w e failed before zero below = (e, failed)
  earlier-Failed n w e failed before (suc j) below = before j (ground arith)

  one_more :
      (rounds n : ℕ) (w : W) (e : Error)
      → answer_after zero w ≡ err e
      → EndsAfter rounds n (api.create_api_key name role w).0
      → EndsAfter (suc rounds) (suc n) w
  unfolding retry_create
  one_more rounds n w e failed (small, before, same, last) = (
    ground arith,
    earlier-Failed n w e failed before,
    rw (retry_create, failed) same,
    (λ f. ap suc (last f)),
  )

  retry_create_ends : (rounds : ℕ) (w : W) → (n : ℕ) × EndsAfter rounds n w
  unfolding retry_create
  retry_create_ends zero w = (zero, one_call zero w refl (λ f. refl))
  retry_create_ends (suc rounds) w =
      let o = api.create_api_key name role w in
      elim (Result-cases o.1) [
        | inl (k, here) ↦ (
          zero,
          one_call (suc rounds) w (rw (retry_create, here) refl ∙ ap (λ r. (o.0, r)) (sym here))
              (no_error o.1 k here),
        )
        | inr (inl (e, failed)) ↦
            let (n, ends) = retry_create_ends rounds o.0 in
            (suc n, one_more rounds n w e failed ends)
        | inr (inr (p, here)) ↦ (
          zero,
          one_call (suc rounds) w (rw (retry_create, here) refl ∙ ap (λ r. (o.0, r)) (sym here))
              (no_error_panic o.1 p here),
        )
      ]

-- createIAMKey calls CreateAPIKey between one and ten times, once the creation of the role is answered
-- with a success: each call but the last failed, what it does with the key is done with the answer to
-- the last call, and that answer is an error only after the tenth call.
pub create_api_key_calls :
    {W : Type 0} (api : CreateApi W) (c : Context W) (op : Operation) (w : W)
    → api.create_iam_role
        (create_role c.iam_key.for_provider.key_name c.iam_key.for_provider.buckets)
        c.world
      ≡ (w, ok op)
    → op.success ≡ true
    → (n : ℕ) × (n ≤ 9)
      × ((j : ℕ)
          → j < n
          → Failed (answer_after api c.iam_key.for_provider.key_name op.reference_id j w))
      × (create_iam_key api c
          ≡ key_created api c op.reference_id (
              api.create_api_key c.iam_key.for_provider.key_name op.reference_id
                (after_calls api c.iam_key.for_provider.key_name op.reference_id n w)))
      × (Failed (answer_after api c.iam_key.for_provider.key_name op.reference_id n w) → n ≡ 9)
unfolding create_iam_key
create_api_key_calls api c op w answered success =
    let name = c.iam_key.for_provider.key_name in
    let (n, ends) = retry_create_ends api name op.reference_id 9 w in
    let (small, before, same, last) = ends in
    (
      n,
      small,
      before,
      ap (role_created api c) answered
          ∙ ap
              (λ b.
                if b
                then key_created api c op.reference_id (retry_create api 9 name op.reference_id w)
                else (record c { world = w }, ok tt))
              success
          ∙ ap (key_created api c op.reference_id) same,
      last,
    )
