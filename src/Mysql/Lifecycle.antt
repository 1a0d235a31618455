-- ===== src/Mysql/Lifecycle.antt =====
-- The zone and the version of a MySQL instance over its life.
use provider_exoscale.Prelude.{
  String, ◌≡◌, ◌⊎◌, inl, inr, refl, sym, ap, Option, some, List, [], ◌==◌, if◌then◌else◌, Result,
  ok, err, panic, >>=-eq-ok,
}
use provider_exoscale.Json.{JsonCodec}
use provider_exoscale.Api.{Notification, Crossplane, CaseFold}
use provider_exoscale.Mapper.Versions.{VersionLib}
use provider_exoscale.Mapper.Conversions.{ServiceMaintenance, to_notifications}
use provider_exoscale.Webhook.{validate_update_version}
use provider_exoscale.Dbaas.{deref_maintenance, noted}
use provider_exoscale.Dbaas.Laws.{ok-injective}
use provider_exoscale.Dbaas.Lifecycle.{IsOrdered, Database, AtMost, Reach, Reach-Bounded}
use provider_exoscale.Mysql.{MySql, MySqlObservation, get_instance_name, ServiceMysql, MysqlApi}
use provider_exoscale.Mysql.Handlers.{
  with_notifications, observed, map_observation, status_set, service_read, observe,
}
use provider_exoscale.Mysql.Webhook.{validate_update}
use provider_exoscale.Mysql.Admission.{mysql-admits_update_iff}

module _ {S W : Type 0} (codec : JsonCodec) (api : MysqlApi S W) (xp : Crossplane)
    (lib : VersionLib) (u : CaseFold) where
  -- Exoscale reports the version for the service of the instance.
  abbrev pub Reports : MySql → W → String → Type 0
  Reports i w v =
      (service : ServiceMysql S) × (api.get_service (get_instance_name i) w ≡ ok service)
      × (service.version ≡ v)

  -- The version of a status: that of the old one, none, or that of the service.
  abbrev Written : MySql → ServiceMysql S → String → Type 0
  Written i service v = (v ≡ i.at_provider.version) ⊎ (v ≡ "") ⊎ (service.version ≡ v)

  noted_version :
      (service : ServiceMysql S) (raw : String) (m : ServiceMaintenance)
      (r : Result (Option (List Notification))) (o : MySqlObservation)
      → noted
          (with_notifications codec api service raw m)
          (with_notifications codec api service raw m [])
          r
        ≡ ok o
      → service.version ≡ o.version
  noted_version service raw m (ok ns) o h = ap (λ x. x.version) (ok-injective h)
  noted_version service raw m (err e) o h = ap (λ x. x.version) (ok-injective h)
  noted_version service raw m (panic p) o h = cc

  observed_version :
      (i : MySql) (service : ServiceMysql S) (r : Result String) (o : MySqlObservation)
      → observed codec api service r ≡ ok o
      → Written i service o.version
  observed_version i service (ok raw) o h =
      let (m, _, h') = >>=-eq-ok (deref_maintenance service.maintenance) _ h in
      inr (
        inr
          (noted_version service raw m (to_notifications codec (some service.notifications)) o h'))
  observed_version i service (err e) o h = inr (inl (sym (ap (λ x. x.version) (ok-injective h))))
  observed_version i service (panic p) o h = cc

  set_version :
      (i : MySql) (service : ServiceMysql S) (w : W) (r : Result MySqlObservation)
      → ((o : MySqlObservation) → r ≡ ok o → Written i service o.version)
      → Written i service (status_set codec api xp lib u i service w r).0.at_provider.version
  set_version i service w (ok o) written = written o refl
  set_version i service w (err e) written = inl refl
  set_version i service w (panic p) written = inl refl

  read_version :
      (i : MySql) (w : W) (r : Result (ServiceMysql S))
      → api.get_service (get_instance_name i) w ≡ r
      → ((service_read codec api xp lib u i w r).0.at_provider.version ≡ i.at_provider.version)
        ⊎ ((service_read codec api xp lib u i w r).0.at_provider.version ≡ "")
        ⊎ Reports i w (service_read codec api xp lib u i w r).0.at_provider.version
  unfolding map_observation
  read_version i w (ok service) read =
      elim (set_version i service w (map_observation codec api service)
        (λ o h. observed_version i service (api.marshal_settings service.mysql_settings) o h)) [
          | inl same ↦ inl same
          | inr (inl empty) ↦ inr (inl empty)
          | inr (inr written) ↦ inr (inr (service, read, written))
        ]
  read_version i w (err e) read = inl refl
  read_version i w (panic p) read = inl refl

  set_kept :
      (i : MySql) (service : ServiceMysql S) (w : W) (r : Result MySqlObservation)
      → (status_set codec api xp lib u i service w r).0.for_provider ≡ i.for_provider
  set_kept i service w (ok o) = refl
  set_kept i service w (err e) = refl
  set_kept i service w (panic p) = refl

  read_kept :
      (i : MySql) (w : W) (r : Result (ServiceMysql S))
      → (service_read codec api xp lib u i w r).0.for_provider ≡ i.for_provider
  read_kept i w (ok service) = set_kept i service w (map_observation codec api service)
  read_kept i w (err e) = refl
  read_kept i w (panic p) = refl

  pub admitted_zone :
      (i j : MySql)
      → validate_update codec lib i j ≡ ok tt
      → i.for_provider.zone ≡ j.for_provider.zone
  admitted_zone i j h = let (_, _, _, zone, _) = (mysql-admits_update_iff codec lib i j).0 h in zone

  pub admitted_version :
      (i j : MySql)
      → validate_update codec lib i j ≡ ok tt
      → (i.for_provider.version ≡ j.for_provider.version)
        ⊎ (validate_update_version lib i.at_provider.version
              (if i.for_provider.version == ""
                then i.at_provider.version
                else i.for_provider.version)
              j.for_provider.version
            ≡ ok tt)
  admitted_version i j h =
      let (_, _, _, _, version) = (mysql-admits_update_iff codec lib i j).0 h in version

  pub observed_kept :
      (i : MySql) (w : W) → (observe codec api xp lib u i w).0.for_provider ≡ i.for_provider
  unfolding observe
  observed_kept i w = read_kept i w (api.get_service (get_instance_name i) w)

  pub observed_status :
      (i : MySql) (w : W)
      → ((observe codec api xp lib u i w).0.at_provider.version ≡ i.at_provider.version)
        ⊎ ((observe codec api xp lib u i w).0.at_provider.version ≡ "")
        ⊎ Reports i w (observe codec api xp lib u i w).0.at_provider.version
  unfolding observe
  observed_status i w = read_version i w (api.get_service (get_instance_name i) w) refl

  abbrev pub mysql_database : Database lib MySql W
  mysql_database = record {
    zone = λ i. i.for_provider.zone;
    version = λ i. i.for_provider.version;
    observed_version = λ i. i.at_provider.version;
    Admits = λ i j. validate_update codec lib i j ≡ ok tt;
    observe = λ i w. (observe codec api xp lib u i w).0;
    Reports = Reports;
    admits_zone = λ h. admitted_zone _ _ h;
    admits_version = λ h. admitted_version _ _ h;
    observe_keeps =
        λ i w. (ap (λ p. p.zone) (observed_kept i w), ap (λ p. p.version) (observed_kept i w));
    observe_status = observed_status;
  }

  -- Over any sequence of Observe and of updates that the webhook admits, the zone of a MySQL instance
  -- stays, and its version never goes above `cap`: where the specified and the observed version are
  -- empty or not above it at first, and whenever Observe runs, Exoscale reports no version above it. Of
  -- the versions it is assumed that their order is transitive, that the constraint "<= v" admits no
  -- greater version, and that the empty text is none.
  pub mysql-versions_bounded :
      (laws : IsOrdered lib) (cap : lib.Version) {i j : MySql}
      → Reach lib mysql_database cap i j
      → AtMost lib cap i.for_provider.version
      → AtMost lib cap i.at_provider.version
      → AtMost lib cap j.for_provider.version × (j.for_provider.zone ≡ i.for_provider.zone)
  mysql-versions_bounded laws cap r version status =
      let (bounded, zone) = Reach-Bounded lib mysql_database cap laws r (version, status) in
      (bounded.0, zone)
