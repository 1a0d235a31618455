-- ===== src/Iam/Policy.antt =====
-- What the policy of operator/iamkeycontroller/util.go allows. The evaluation of a policy by Exoscale
-- is a parameter: `FirstMatch` is its documented behaviour, and `first_match` an evaluation like that.
use provider_exoscale.Prelude.{
  String, Bool, true, false, not, ◌≡◌, ◌≢◌, ◌↔◌, refl, sym, ◌∙◌, List, [], ◌∷◌, ◌++◌, ◌==◌, eq_iff,
  arith, if◌then◌else◌, All,
}
use provider_exoscale.Iam.Role.{
  Action, allow, deny, Rule, CreateRoleRequest, create_role, bucket_rules, not_bucket, listing_rule,
  allow_rule,
}

-- The rules of the first service: the policy of a key has one.
unfoldable pub role_rules : CreateRoleRequest → List Rule
role_rules role = elim role.policy.services [ [] ↦ [] | (name, p) ∷ rest ↦ p.rules ]

-- A request `q` is decided by the first rule whose expression holds of it.
pub record FirstMatch {Q : Type 0} (holds : String → Q → Bool) (decide : List Rule → Q → Action)
    : Type 0 where
  pub decide-cons :
      (r : Rule) (rs : List Rule) (q : Q)
      → decide (r ∷ rs) q ≡ (if holds r.expression q then r.action else decide rs q)

unfoldable pub first_match : {Q : Type 0} → (String → Q → Bool) → List Rule → Q → Action
first_match holds [] q = deny
first_match holds (r ∷ rs) q =
    let rest = first_match holds rs q in if holds r.expression q then r.action else rest

pub first_match-FirstMatch :
    {Q : Type 0} (holds : String → Q → Bool) → FirstMatch holds (first_match holds)
unfolding first_match
first_match-FirstMatch holds = record { decide-cons = λ r rs q. refl }

module _ {Q : Type 0} (holds : String → Q → Bool) (bucket : Q → String) where
  -- The expressions of the rules mean what they say of a request: `resources.bucket != 'b'` holds
  -- unless the request is for the bucket b, and `true` holds.
  abbrev pub Reads : List String → Q → Type 0
  Reads bs q = All (λ b. holds (not_bucket b) q ≡ not (bucket q == b)) bs × (holds "true" q ≡ true)

  abbrev pub AllAre : String → List String → Type 0
  AllAre s bs = All (λ b. s ≡ b) bs

  module _ (decide : List Rule → Q → Action) (match : FirstMatch holds decide) (q : Q) where
    decide-allow_rule : holds "true" q ≡ true → decide (allow_rule ∷ []) q ≡ allow
    decide-allow_rule h = rw (match.decide-cons allow_rule [] q) (rw h refl)

    decide-bucket_rules :
        (bs : List String)
        → Reads bs q
        → (decide (bucket_rules bs ++ allow_rule ∷ []) q ≡ allow) ↔ AllAre (bucket q) bs
    unfolding bucket_rules
    decide-bucket_rules [] h = ((λ e. tt), (λ e. decide-allow_rule h.1))
    decide-bucket_rules (b ∷ bs) h =
        grind (arith, match.decide-cons, decide-bucket_rules bs, eq_iff (bucket q) b)

    -- The role that createRole makes allows a request exactly if the request lists no buckets and
    -- its bucket is equal to every bucket of the key.
    pub create_role-allows_iff :
        (name : String) (bs : List String)
        → Reads bs q
        → (decide (role_rules (create_role name bs)) q ≡ allow)
          ↔ ((holds listing_rule.expression q ≡ false) × AllAre (bucket q) bs)
    unfolding create_role role_rules
    create_role-allows_iff name bs h = grind (arith, match.decide-cons, decide-bucket_rules bs h)

    -- A key for two different buckets is allowed nothing, in either of them.
    pub create_role-two_buckets :
        (name a b : String) (bs : List String)
        → Reads (a ∷ b ∷ bs) q
        → a ≢ b
        → decide (role_rules (create_role name (a ∷ b ∷ bs))) q ≢ allow
    create_role-two_buckets name a b bs h ne allowed =
        let same = ((create_role-allows_iff name (a ∷ b ∷ bs) h).0 allowed).1 in
        ne (sym same.0 ∙ same.1.0)
