-- ===== src/Mysql/Laws.antt =====
-- What the handlers of a MySQL instance send, read back and admit.
use provider_exoscale.Prelude.{
  ℕ, String, true, ◌≡◌, ◌↔◌, ◌<◌, refl, sym, ap, ◌∙◌, none, some, wrap, ok, >>=-eq-ok, eq_iff,
  eq_refl, arith,
}
use mathlib.Core.Path.{subst}
use provider_exoscale.Prelude.Int.{pos}
use provider_exoscale.Json.{JsonCodec}
use provider_exoscale.Time.Format.{time_text}
use provider_exoscale.Api.{CaseFold, equals_maintenance}
use provider_exoscale.Mapper.Versions.{VersionLib}
use provider_exoscale.Mapper.Conversions.{BackupSchedule, to_backup_schedule, to_backup_spec}
use provider_exoscale.Mapper.Conversions.Laws.{schedule_read}
use provider_exoscale.Dbaas.{decoded_settings}
use provider_exoscale.Dbaas.Laws.{
  equals_size_refl, bool_eq_refl, is_same_string_set_refl, ok-injective,
}
use provider_exoscale.Mysql.{MySql, MySqlParameters, ServiceMysql, UpdateRequest, MysqlApi}
use provider_exoscale.Mysql.Handlers.{
  body_with, scheduled, schedule_or_error, same_fields, request, map_parameters,
}
use provider_exoscale.Mysql.Webhook.{
  validate_spec, validate_immutable, validate_update, compare_version,
}

-- A service that has been given a request: it reports the fields of the request, and the rest of
-- what it reports is that of `base`.
abbrev pub provisioned : {S : Type 0} → ServiceMysql S → UpdateRequest S → ServiceMysql S
provisioned base body = record base {
  maintenance = some body.maintenance;
  backup_schedule = some body.backup_schedule;
  termination_protection = some body.termination_protection;
  plan = body.plan;
  ip_filter = body.ip_filter;
  mysql_settings = body.mysql_settings;
}

module _ {S W : Type 0} (codec : JsonCodec) (api : MysqlApi S W) where
  -- The webhook admits an update exactly if the new specification passes the checks of a new
  -- instance, the zone is the same and compareVersion accepts the new version.
  pub mysql-validate_update_iff :
      (lib : VersionLib) (old_inst new_inst : MySql)
      → (validate_update codec lib old_inst new_inst ≡ ok tt) ↔ (
          (validate_spec codec new_inst ≡ ok tt)
          × (old_inst.for_provider.zone ≡ new_inst.for_provider.zone)
          × (compare_version codec lib old_inst new_inst ≡ ok tt))
  unfolding validate_update validate_immutable
  mysql-validate_update_iff lib old_inst new_inst =
      ground (arith, eq_iff old_inst.for_provider.zone new_inst.for_provider.zone)

  abbrev schedule_at : ℕ → ℕ → BackupSchedule
  schedule_at h m = record { backup_hour = pos h; backup_minute = pos m }

  abbrev body_of : MySqlParameters → ℕ → ℕ → S → UpdateRequest S
  body_of spec h m settings = body_with codec api spec settings (schedule_at h m)

  request_body :
      (spec : MySqlParameters) (body : UpdateRequest S) (h m : ℕ)
      → to_backup_schedule spec.backup.time_of_day
        ≡ (record { backup_hour = pos h; backup_minute = pos m }, none)
      → request codec api spec ≡ ok body
      → (settings : S) × (body_of spec h m settings ≡ body)
  request_body spec body h m read sent =
      let (settings, _, rest) =
        >>=-eq-ok
          (decoded_settings codec api (wrap "cannot map mySQLInstance settings: %w")
            spec.my_sql_settings.raw)
          (scheduled codec api spec) sent in
      let (schedule, taken, last) =
        >>=-eq-ok (schedule_or_error (to_backup_schedule spec.backup.time_of_day))
          (λ t. ok (body_with codec api spec settings t)) rest in
      (
        settings,
        ap (body_with codec api spec settings)
              (ok-injective (sym (ap schedule_or_error read) ∙ taken))
            ∙ ok-injective last,
      )

  -- What a service with such a body reports.
  abbrev pub reported : MySqlParameters → ServiceMysql S → String → ℕ → ℕ → MySqlParameters
  reported spec base raw h m = record spec {
    backup = record { time_of_day = time_text (pos h) (pos m) };
    version = base.version;
    my_sql_settings = record { raw = raw };
  }

  body_settles :
      (u : CaseFold) (spec : MySqlParameters) (base : ServiceMysql S) (settings : S) (raw : String)
      (h m : ℕ)
      → spec.backup.time_of_day ≡ time_text (pos h) (pos m)
      → api.marshal_settings settings ≡ ok raw
      → (map_parameters codec api (provisioned base (body_of spec h m settings)) spec.zone
          ≡ ok (reported spec base raw h m))
        × (same_fields u spec (reported spec base raw h m) ≡ true)
  unfolding map_parameters to_backup_spec equals_maintenance
  body_settles u spec base settings raw h m printed encoded = (
    rw encoded refl,
    rw
        (
          eq_refl spec.maintenance.day_of_week,
          eq_refl spec.maintenance.time_of_day,
          (eq_iff spec.backup.time_of_day (time_text (pos h) (pos m))).1 printed,
          eq_refl spec.zone,
          is_same_string_set_refl spec.dbaas.ip_filter,
          equals_size_refl u spec.dbaas.size,
          bool_eq_refl spec.dbaas.termination_protection,
        )
        refl,
  )

  -- The parameters that are read back are those of `reported`.
  pub request_read :
      (u : CaseFold) (spec : MySqlParameters) (base : ServiceMysql S) (body : UpdateRequest S)
      (raw : String) (h m : ℕ)
      → request codec api spec ≡ ok body
      → api.marshal_settings body.mysql_settings ≡ ok raw
      → spec.backup.time_of_day ≡ time_text (pos h) (pos m)
      → h < 24
      → m < 60
      → (map_parameters codec api (provisioned base body) spec.zone
          ≡ ok (reported spec base raw h m))
        × (same_fields u spec (reported spec base raw h m) ≡ true)
  unfolding map_parameters
  request_read u spec base body raw h m sent encoded printed small_h small_m =
      let (settings, same) =
        request_body spec body h m
          (schedule_read spec.backup.time_of_day h m printed small_h small_m) sent in
      subst
        (λ b.
          api.marshal_settings b.mysql_settings ≡ ok raw
          → (map_parameters codec api (provisioned base b) spec.zone
              ≡ ok (reported spec base raw h m))
            × (same_fields u spec (reported spec base raw h m) ≡ true))
        same (body_settles u spec base settings raw h m printed) encoded

  -- What Create and Update send settles: where the body of the request can be made, its settings
  -- can be encoded and the backup time is written "hh:mm:00" with an hour below 24 and a minute
  -- below 60, a service that stores the fields of the body is read back as parameters that agree
  -- with the specification in the maintenance window, the backup time, the zone, the IP filter,
  -- the plan and the termination protection.
  pub request_settles :
      (u : CaseFold) (spec : MySqlParameters) (base : ServiceMysql S) (body : UpdateRequest S)
      (raw : String) (h m : ℕ)
      → request codec api spec ≡ ok body
      → api.marshal_settings body.mysql_settings ≡ ok raw
      → spec.backup.time_of_day ≡ time_text (pos h) (pos m)
      → h < 24
      → m < 60
      → (p : MySqlParameters) × (map_parameters codec api (provisioned base body) spec.zone ≡ ok p)
        × (same_fields u spec p ≡ true)
  request_settles u spec base body raw h m sent encoded printed small_h small_m =
      let (mapped, same) =
        request_read u spec base body raw h m sent encoded printed small_h small_m in
      (reported spec base raw h m, mapped, same)
