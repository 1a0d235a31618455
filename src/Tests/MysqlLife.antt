-- ===== src/Tests/MysqlLife.antt =====
-- A MySQL instance over its life.
use provider_exoscale.Prelude.{String, ◌≡◌, refl, ap, ◌∙◌, some, Result, inl, inr, ok}
use provider_exoscale.Dbaas.Laws.{ok-injective}
use provider_exoscale.Dbaas.Lifecycle.{AtMost, Reach, observed, updated, here, next}
use provider_exoscale.Time.{parse}
use provider_exoscale.Webhook.{validate_update_version, validate_raw_extension}
use provider_exoscale.Dbaas.Webhook.{check_version}
use provider_exoscale.Mysql.{MySql, ServiceMysql}
use provider_exoscale.Mysql.Handlers.{observe}
use provider_exoscale.Mysql.Webhook.{
  validate_update, validate_spec, validate_immutable, compare_version,
}
use provider_exoscale.Mysql.Lifecycle.{mysql_database, mysql-versions_bounded}
use provider_exoscale.Tests.Versions.{eight, releases, releases-IsOrdered, eight_AtMost}
use provider_exoscale.Tests.Fixtures.{crossplane}
use provider_exoscale.Tests.Stores.{json, folding}
use provider_exoscale.Tests.Databases.{instance_of, parameters, service, databases}

-- An instance that runs the version "8", and is to have the given one.
abbrev running_eight : String → MySql
running_eight version =
    let i = instance_of "ch-gva-2" in
    let p = i.at_provider in
    record i {
      for_provider = record parameters { version = version };
      at_provider = record p { version = "8" };
    }

abbrev service_eight : ServiceMysql String
service_eight = record service { version = "8" }

reports_eight :
    (v : String)
    → (s : ServiceMysql String) × (◌≡◌ {A = Result (ServiceMysql String)} (ok service_eight) (ok s))
      × (s.version ≡ v)
    → AtMost releases eight v
reports_eight v (s, found, same) = eight_AtMost v (ap (λ x. x.version) (ok-injective found) ∙ same)

admits_eight : validate_update json releases (running_eight "") (running_eight "8") ≡ ok tt
unfolding validate_update parse validate_update_version validate_raw_extension check_version
    validate_spec validate_immutable compare_version
admits_eight = refl

-- The version "8" is asked for, and Observe finds it.
mysql_life :
    Reach releases
      (mysql_database json databases crossplane releases folding)
      eight
      (running_eight "")
      (observe json databases crossplane releases folding
        (running_eight "8")
        (some service_eight)).0
mysql_life =
    next (next here (updated (running_eight "") (running_eight "8") admits_eight refl))
      (observed (running_eight "8") (some service_eight) reports_eight)

mysql-versions_bounded_example :
    let j =
      (observe json databases crossplane releases folding
        (running_eight "8")
        (some service_eight)).0 in
    AtMost releases eight j.for_provider.version × (j.for_provider.zone ≡ "ch-gva-2")
mysql-versions_bounded_example =
    mysql-versions_bounded json databases crossplane releases folding releases-IsOrdered eight
      mysql_life (inl refl) (inr (eight, refl, refl))
