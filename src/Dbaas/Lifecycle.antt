-- ===== src/Dbaas/Lifecycle.antt =====
-- The zone and the version of a database over its life: updates that the webhook admits, and what
-- Observe writes into the status between them. `Database` is what this needs of a kind of resource.
use Prim.Native.String.{◌++◌}
use provider_exoscale.Prelude.{
  String, Bool, true, false, not, ◌&&◌, ◌≡◌, ◌≢◌, ◌⊎◌, inl, inr, refl, sym, ap, ◌∙◌, Error, wrap,
  Result, ok, err, ◌==◌, if◌then◌else◌, map_err, map_err-eq-ok, >>=-eq-ok, Bool-cases, arith,
}
use mathlib.Core.Path.{subst}
use provider_exoscale.Mapper.Versions.{VersionLib}
use provider_exoscale.Webhook.{validate_update_version}
use provider_exoscale.Dbaas.Laws.{ok-injective}

module _ (lib : VersionLib) where
  -- What the code relies on of github.com/hashicorp/go-version: the order of versions is transitive, the
  -- constraint "<= v" admits no greater version, and the empty text is no version.
  pub record IsOrdered : Type 0 where
    pub not_greater_trans :
        (a b c : lib.Version)
        → lib.greater_than a b ≡ false
        → lib.greater_than b c ≡ false
        → lib.greater_than a c ≡ false
    pub le_sound :
        (v w : lib.Version) (c : lib.Constraint)
        → lib.new_constraint ("<= " ++ lib.show v) ≡ ok c
        → lib.check c w ≡ true
        → lib.greater_than w v ≡ false
    pub empty_malformed : (v : lib.Version) → lib.new_version "" ≢ ok v

  update_passed :
      (above : Bool) (checked : Bool) (e : Error)
      → (◌≡◌ {A = Result (Unit {0})} (if above && not checked then err e else ok tt) (ok tt))
      → (above ≡ false) ⊎ (checked ≡ true)
  update_passed above checked e h = ground arith

  -- What ValidateUpdateVersion has found out of three versions that it accepts.
  accepted_version :
      (laws : IsOrdered) (old_obs old_des new_des : String)
      → validate_update_version lib old_obs old_des new_des ≡ ok tt
      → (obs : lib.Version) × (des : lib.Version) × (new : lib.Version) × (lib.new_version old_obs
          ≡ ok obs)
        × (lib.new_version old_des ≡ ok des)
        × (lib.new_version new_des ≡ ok new)
        × ((lib.greater_than new des ≡ false) ⊎ (lib.greater_than new obs ≡ false))
  unfolding validate_update_version
  accepted_version laws old_obs old_des new_des h =
      let (obs, first, h1) =
        >>=-eq-ok
          (map_err (wrap "set old status version '%s' failed: %w") (lib.new_version old_obs)) _ h in
      let (des, second, h2) =
        >>=-eq-ok
          (map_err (wrap "set old desired version '%s' failed: %w") (lib.new_version old_des)) _
          h1 in
      let (new, third, h3) =
        >>=-eq-ok
          (map_err (wrap "set new desired version '%s' failed: %w") (lib.new_version new_des)) _
          h2 in
      let (c, fourth, h4) =
        >>=-eq-ok
          (map_err (wrap "set version constraint failed: %w")
            (lib.new_constraint ("<= " ++ lib.show obs)))
          _ h3 in
      let le =
        laws.le_sound obs new c
          (map_err-eq-ok (wrap "set version constraint failed: %w") _ c fourth) in
      (
        obs,
        des,
        new,
        map_err-eq-ok (wrap "set old status version '%s' failed: %w") _ obs first,
        map_err-eq-ok (wrap "set old desired version '%s' failed: %w") _ des second,
        map_err-eq-ok (wrap "set new desired version '%s' failed: %w") _ new third,
        elim (update_passed (lib.greater_than new des) (lib.check c new) _ h4) [
          | inl not_above ↦ inl not_above
          | inr admitted ↦ inr (le admitted)
        ],
      )

  -- A kind of resource `R`: its fields, the updates that its webhook admits, and what Observe makes of
  -- it at a state of the remote side, which reports versions.
  pub record Database (R W : Type 0) : Type 1 where
    pub zone : R → String
    pub version : R → String
    pub observed_version : R → String
    pub Admits : R → R → Type 0
    pub observe : R → W → R
    pub Reports : R → W → String → Type 0
    pub admits_zone : {i j : R} → Admits i j → zone i ≡ zone j
    pub admits_version :
        {i j : R}
        → Admits i j
        → (version i ≡ version j)
          ⊎ (validate_update_version lib
                (observed_version i)
                (if version i == "" then observed_version i else version i)
                (version j)
              ≡ ok tt)
    pub observe_keeps :
        (i : R) (w : W) → (zone (observe i w) ≡ zone i) × (version (observe i w) ≡ version i)
    pub observe_status :
        (i : R) (w : W)
        → (observed_version (observe i w) ≡ observed_version i)
          ⊎ (observed_version (observe i w) ≡ "")
          ⊎ Reports i w (observed_version (observe i w))

  -- The text is empty, or a version that is not greater than `cap`.
  abbrev pub AtMost : lib.Version → String → Type 0
  AtMost cap s =
      (s ≡ "") ⊎ ((v : lib.Version) × (lib.new_version s ≡ ok v) × (lib.greater_than v cap ≡ false))

  module _ {R W : Type 0} (db : Database R W) (cap : lib.Version) where
    -- A resource changes by Observe, where the services run no version above `cap`, and by an update that
    -- the webhook admits, which cannot touch the status.
    pub data Step : R → R → Type 0 where
      observed :
          (i : R) (w : W)
          → ((v : String) → db.Reports i w v → AtMost cap v)
          → Step i (db.observe i w)
      updated : (i j : R) → db.Admits i j → db.observed_version j ≡ db.observed_version i → Step i j

    pub data Reach (i : R) : R → Type 0 where
      here : Reach i i
      next : {j k : R} → Reach i j → Step j k → Reach i k

    abbrev pub Bounded : R → Type 0
    Bounded i = AtMost cap (db.version i) × AtMost cap (db.observed_version i)

    -- A version that is admitted against a bounded one is bounded.
    bounded_below :
        (laws : IsOrdered) (s : String) (old new : lib.Version)
        → AtMost cap s
        → lib.new_version s ≡ ok old
        → lib.greater_than new old ≡ false
        → lib.greater_than new cap ≡ false
    bounded_below laws s old new (inl empty) read below =
        absurd (laws.empty_malformed old (ap lib.new_version (sym empty) ∙ read))
    bounded_below laws s old new (inr (v, parsed, small)) read below =
        laws.not_greater_trans new old cap below
          (subst (λ x. lib.greater_than x cap ≡ false) (ok-injective (sym parsed ∙ read)) small)

    desired_AtMost :
        (i : R)
        → Bounded i
        → AtMost cap (if db.version i == "" then db.observed_version i else db.version i)
    desired_AtMost i (version, status) = elim (Bool-cases (db.version i == "")) [
      | inl q ↦ rw q status
      | inr q ↦ rw q version
    ]

    admitted_AtMost :
        (laws : IsOrdered) (i j : R) → Bounded i → db.Admits i j → AtMost cap (db.version j)
    admitted_AtMost laws i j bounded admitted = elim (db.admits_version admitted) [
      | inl same ↦ subst (AtMost cap) same bounded.0
      | inr accepted ↦
          let (obs, des, new, first, second, third, order) =
            accepted_version laws _ _ (db.version j) accepted in
          inr (
            new,
            third,
            elim order [
              | inl below ↦ bounded_below laws _ des new (desired_AtMost i bounded) second below
              | inr below ↦ bounded_below laws _ obs new bounded.1 first below
            ],
          )
    ]

    Step-Bounded : (laws : IsOrdered) {i j : R} → Step i j → Bounded i → Bounded j
    Step-Bounded laws (observed i w capped) (version, status) = (
      subst (AtMost cap) (sym (db.observe_keeps i w).1) version,
      elim (db.observe_status i w) [
        | inl same ↦ subst (AtMost cap) (sym same) status
        | inr (inl empty) ↦ inl empty
        | inr (inr reported) ↦ capped _ reported
      ],
    )
    Step-Bounded laws (updated i j admitted kept) bounded =
        (admitted_AtMost laws i j bounded admitted, subst (AtMost cap) (sym kept) bounded.1)

    Step-zone : {i j : R} → Step i j → db.zone j ≡ db.zone i
    Step-zone (observed i w capped) = (db.observe_keeps i w).0
    Step-zone (updated i j admitted kept) = sym (db.admits_zone admitted)

    pub Reach-Bounded :
        (laws : IsOrdered) {i j : R} → Reach i j → Bounded i → Bounded j × (db.zone j ≡ db.zone i)
    Reach-Bounded laws here bounded = (bounded, refl)
    Reach-Bounded laws (next r st) bounded =
        let (earlier, zone) = Reach-Bounded laws r bounded in
        (Step-Bounded laws st earlier, Step-zone st ∙ zone)
