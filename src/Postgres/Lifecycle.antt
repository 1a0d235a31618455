-- ===== src/Postgres/Lifecycle.antt =====
-- The zone and the version of a PostgreSQL instance over its life.
use provider_exoscale.Prelude.{
  String, ◌≡◌, ◌⊎◌, inl, inr, refl, ap, ◌==◌, if◌then◌else◌, Result, ok, err, panic, >>=-eq-ok,
}
use provider_exoscale.Json.{JsonCodec}
use provider_exoscale.Api.{Crossplane, CaseFold}
use provider_exoscale.Mapper.Versions.{VersionLib}
use provider_exoscale.Webhook.{validate_update_version}
use provider_exoscale.Dbaas.{deref_maintenance}
use provider_exoscale.Dbaas.Laws.{ok-injective, check_zone_iff, check_version_iff}
use provider_exoscale.Dbaas.Lifecycle.{IsOrdered, Database, AtMost, Reach, Reach-Bounded}
use provider_exoscale.Postgres.{
  PostgreSql, PostgreSqlObservation, get_instance_name, ServicePg, PgApi,
}
use provider_exoscale.Postgres.Handlers.{
  observed, map_observation, status_set, service_read, observe,
}
use provider_exoscale.Postgres.Webhook.{
  validate_spec, compare_version, validate_immutable, validate_update,
}

module _ {S W : Type 0} (codec : JsonCodec) (api : PgApi S W) (xp : Crossplane) (lib : VersionLib)
    (u : CaseFold) where
  -- Exoscale reports the version for the service of the instance.
  abbrev pub Reports : PostgreSql → W → String → Type 0
  Reports i w v =
      (service : ServicePg S) × (api.get_service (get_instance_name i) w ≡ ok service)
      × (service.version ≡ v)

  -- The version of a status: that of the old one, none, or that of the service.
  abbrev Written : PostgreSql → ServicePg S → String → Type 0
  Written i service v = (v ≡ i.at_provider.version) ⊎ (v ≡ "") ⊎ (service.version ≡ v)

  observed_version :
      (service : ServicePg S) (r : Result String) (o : PostgreSqlObservation)
      → observed codec api service r ≡ ok o
      → service.version ≡ o.version
  observed_version service (ok raw) o h =
      let (m, _, h') = >>=-eq-ok (deref_maintenance service.maintenance) _ h in
      ap (λ x. x.version) (ok-injective h')
  observed_version service (err e) o h = cc
  observed_version service (panic p) o h = cc

  set_version :
      (i : PostgreSql) (service : ServicePg S) (w : W) (r : Result PostgreSqlObservation)
      → ((o : PostgreSqlObservation) → r ≡ ok o → Written i service o.version)
      → Written i service (status_set codec api xp lib u i service w r).0.at_provider.version
  set_version i service w (ok o) written = written o refl
  set_version i service w (err e) written = inr (inl refl)
  set_version i service w (panic p) written = inl refl

  read_version :
      (i : PostgreSql) (w : W) (r : Result (ServicePg S))
      → api.get_service (get_instance_name i) w ≡ r
      → ((service_read codec api xp lib u i w r).0.at_provider.version ≡ i.at_provider.version)
        ⊎ ((service_read codec api xp lib u i w r).0.at_provider.version ≡ "")
        ⊎ Reports i w (service_read codec api xp lib u i w r).0.at_provider.version
  unfolding map_observation
  read_version i w (ok service) read =
      elim (set_version i service w (map_observation codec api service) (λ o h.
        inr (inr (observed_version service (api.marshal_settings service.pg_settings) o h)))) [
          | inl same ↦ inl same
          | inr (inl empty) ↦ inr (inl empty)
          | inr (inr written) ↦ inr (inr (service, read, written))
        ]
  read_version i w (err e) read = inl refl
  read_version i w (panic p) read = inl refl

  set_kept :
      (i : PostgreSql) (service : ServicePg S) (w : W) (r : Result PostgreSqlObservation)
      → (status_set codec api xp lib u i service w r).0.for_provider ≡ i.for_provider
  set_kept i service w (ok o) = refl
  set_kept i service w (err e) = refl
  set_kept i service w (panic p) = refl

  read_kept :
      (i : PostgreSql) (w : W) (r : Result (ServicePg S))
      → (service_read codec api xp lib u i w r).0.for_provider ≡ i.for_provider
  read_kept i w (ok service) = set_kept i service w (map_observation codec api service)
  read_kept i w (err e) = refl
  read_kept i w (panic p) = refl

  -- The two checks of validateImmutable, for an update that is admitted.
  pub admitted_checks :
      (i j : PostgreSql)
      → validate_update codec lib i j ≡ ok tt
      → (i.for_provider.zone ≡ j.for_provider.zone)
        × ((i.for_provider.version ≡ j.for_provider.version)
            ⊎ (validate_update_version lib i.at_provider.version
                  (if i.for_provider.version == ""
                    then i.at_provider.version
                    else i.for_provider.version)
                  j.for_provider.version
                ≡ ok tt))
  unfolding validate_update validate_immutable compare_version
  admitted_checks i j h =
      let (_, valid, kept) =
        >>=-eq-ok (validate_spec codec j) (λ u. validate_immutable codec lib i j) h in
      let (zone, version) =
        (check_zone_iff "field is immutable: %s (old), %s (changed)" i.for_provider.zone
            j.for_provider.zone (compare_version codec lib i j)).0
          kept in
      (
        zone,
        (check_version_iff lib i.at_provider.version i.for_provider.version
              j.for_provider.version).0
            version,
      )

  pub observed_kept :
      (i : PostgreSql) (w : W) → (observe codec api xp lib u i w).0.for_provider ≡ i.for_provider
  unfolding observe
  observed_kept i w = read_kept i w (api.get_service (get_instance_name i) w)

  pub observed_status :
      (i : PostgreSql) (w : W)
      → ((observe codec api xp lib u i w).0.at_provider.version ≡ i.at_provider.version)
        ⊎ ((observe codec api xp lib u i w).0.at_provider.version ≡ "")
        ⊎ Reports i w (observe codec api xp lib u i w).0.at_provider.version
  unfolding observe
  observed_status i w = read_version i w (api.get_service (get_instance_name i) w) refl

  abbrev pub postgres_database : Database lib PostgreSql W
  postgres_database = record {
    zone = λ i. i.for_provider.zone;
    version = λ i. i.for_provider.version;
    observed_version = λ i. i.at_provider.version;
    Admits = λ i j. validate_update codec lib i j ≡ ok tt;
    observe = λ i w. (observe codec api xp lib u i w).0;
    Reports = Reports;
    admits_zone = λ h. (admitted_checks _ _ h).0;
    admits_version = λ h. (admitted_checks _ _ h).1;
    observe_keeps =
        λ i w. (ap (λ p. p.zone) (observed_kept i w), ap (λ p. p.version) (observed_kept i w));
    observe_status = observed_status;
  }

  -- Over any sequence of Observe and of updates that the webhook admits, the zone of a PostgreSQL instance
  -- stays, and its version never goes above `cap`: where the specified and the observed version are
  -- empty or not above it at first, and whenever Observe runs, Exoscale reports no version above it. Of
  -- the versions it is assumed that their order is transitive, that the constraint "<= v" admits no
  -- greater version, and that the empty text is none.
  pub postgres-versions_bounded :
      (laws : IsOrdered lib) (cap : lib.Version) {i j : PostgreSql}
      → Reach lib postgres_database cap i j
      → AtMost lib cap i.for_provider.version
      → AtMost lib cap i.at_provider.version
      → AtMost lib cap j.for_provider.version × (j.for_provider.zone ≡ i.for_provider.zone)
  postgres-versions_bounded laws cap r version status =
      let (bounded, zone) = Reach-Bounded lib postgres_database cap laws r (version, status) in
      (bounded.0, zone)
