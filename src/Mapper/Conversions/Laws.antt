-- ===== src/Mapper/Conversions/Laws.antt =====
-- Backup schedules and times of day.
use provider_exoscale.Prelude.{ℕ, ◌<◌, true, ◌≡◌, ◌↔◌, ◌∙◌, ap, none, some, eq_iff}
use provider_exoscale.Prelude.Int.{pos}
use provider_exoscale.Time.{TimeOfDay, parse}
use provider_exoscale.Api.{equals_backup}
use provider_exoscale.Time.Format.{time_text}
use provider_exoscale.Time.Reading.{parse_in_range}
use provider_exoscale.Time.RoundTrip.{parse-time_text}
use provider_exoscale.Mapper.Conversions.{to_backup_schedule, to_backup_spec}

-- A schedule that Exoscale reports survives the way to a BackupSpec and back: ToBackupSchedule of
-- the printed time of day gives the same hour and minute, for hours below 24 and minutes below 60.
pub to_backup_schedule-to_backup_spec :
    (h m : ℕ)
    → h < 24
    → m < 60
    → to_backup_schedule
        (to_backup_spec (some (record { backup_hour = pos h; backup_minute = pos m }))).time_of_day
      ≡ (record { backup_hour = pos h; backup_minute = pos m }, none)
unfolding to_backup_schedule to_backup_spec
to_backup_schedule-to_backup_spec h m p q = rw (parse-time_text h m p q)

pub schedule_read :
    (t : TimeOfDay) (h m : ℕ)
    → t ≡ time_text (pos h) (pos m)
    → h < 24
    → m < 60
    → to_backup_schedule t ≡ (record { backup_hour = pos h; backup_minute = pos m }, none)
unfolding to_backup_spec
schedule_read t h m printed small_h small_m =
    ap to_backup_schedule printed ∙ to_backup_schedule-to_backup_spec h m small_h small_m

schedule_text :
    (t : TimeOfDay) {h m s : ℕ}
    → parse t ≡ (pos h, pos m, pos s, none)
    → to_backup_spec (some (to_backup_schedule t).0)
      ≡ record { time_of_day = time_text (pos h) (pos m) }
unfolding to_backup_schedule to_backup_spec
schedule_text t e = rw e

-- Once a backup time that Parse accepts has been sent to Exoscale and read back, it equals the
-- specified one exactly when the specified one is the printed form "hh:mm:00" of an hour below 24
-- and a minute below 60. A one-digit hour or a second other than 00 never settles.
pub backup_settles_iff :
    (t : TimeOfDay)
    → (parse t).3 ≡ none
    → (equals_backup (record { time_of_day = t }) (to_backup_spec (some (to_backup_schedule t).0))
        ≡ true)
      ↔ ((h : ℕ) × (m : ℕ) × (t ≡ time_text (pos h) (pos m)) × (h < 24) × (m < 60))
unfolding equals_backup
backup_settles_iff t e =
    let (h, m, s, p, below_h, below_m, _) = parse_in_range t e in
    let printed = schedule_text t p in
    (
      (λ q. (h, m, (eq_iff t (time_text (pos h) (pos m))).0 (rw printed at q), below_h, below_m)),
      (λ (h', m', q, p', q').
          rw (schedule_text t (ap parse q ∙ parse-time_text h' m' p' q'))
            ((eq_iff t (time_text (pos h') (pos m'))).1 q)),
    )
