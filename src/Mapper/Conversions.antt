-- ===== src/Mapper/Conversions.antt =====
-- operator/mapper/alias.go: conversions between the SDK's types and those of the API.
pub mod Laws
use provider_exoscale.Prelude.{
  String, Bool, List, [], ◌∷◌, Option, none, some, Error, wrap, Result, ok, map_err, ◌>>=◌,
}
use provider_exoscale.Prelude.Int.{ℤ}
use provider_exoscale.Json.{Fields, RawExtension, JsonCodec, to_raw_extension}
use provider_exoscale.Time.{TimeOfDay, parse}
use provider_exoscale.Time.Format.{time_text}
use provider_exoscale.Api.{
  DBaaSParameters, SizeSpec, NodeState, Notification, BackupSpec, MaintenanceSpec,
}

pub record BackupSchedule : Type 0 where
  pub backup_hour : ℤ
  pub backup_minute : ℤ

-- exoscalesdk.DBAASServiceNotification.
pub record ServiceNotification : Type 0 where
  pub level : String
  pub message : String
  pub type : String
  pub metadata : Fields

-- exoscalesdk.DBAASServiceMaintenance.
pub record ServiceMaintenance : Type 0 where
  pub dow : String
  pub time : String

unfoldable pub to_backup_schedule : TimeOfDay → BackupSchedule × Option Error
to_backup_schedule day =
    let (backup_hour, backup_min, _, e) = parse day in
    (record { backup_hour = backup_hour; backup_minute = backup_min }, e)

unfoldable pub to_slice : Option (List String) → List String
to_slice (some arr) = arr
to_slice none = []

-- exoscalesdk.DBAASNodeState and NodeState have the same three fields.
abbrev copy_states : List NodeState → List NodeState
copy_states [] = []
copy_states (s ∷ states) =
    record { name = s.name; role = s.role; state = s.state } ∷ copy_states states

unfoldable pub to_node_states : Option (List NodeState) → Option (List NodeState)
to_node_states none = none
to_node_states (some states) = some (copy_states states)

module _ (codec : JsonCodec) where
  unfoldable pub each_notification : List ServiceNotification → Result (List Notification)
  unfolding to_raw_extension
  each_notification [] = ok []
  each_notification (n ∷ ns) =
      let later = each_notification ns in
      map_err (wrap "unable to convert metadata: %w") (to_raw_extension codec (some n.metadata))
      >>= λ metadata. later >>= λ rest. ok (
          record { level = n.level; message = n.message; type = n.type; metadata = metadata }
          ∷ rest)

  unfoldable pub to_notifications :
      Option (List ServiceNotification) → Result (Option (List Notification))
  unfolding each_notification
  to_notifications none = ok none
  to_notifications (some ns) = each_notification ns >>= λ s. ok (some s)

unfoldable pub to_backup_spec : Option BackupSchedule → BackupSpec
to_backup_spec none = record { time_of_day = "" }
to_backup_spec (some schedule) = record {
  time_of_day = time_text schedule.backup_hour schedule.backup_minute;
}

-- ptr.Deref(tp, false) of k8s.io/utils is the pointer's value, and false for nil.
abbrev pub deref_false : Option Bool → Bool
deref_false none = Bool.false
deref_false (some b) = b

unfoldable pub to_dbaas_parameters : Option Bool → String → Option (List String) → DBaaSParameters
unfolding to_slice
to_dbaas_parameters tp plan ipf = record {
  termination_protection = deref_false tp;
  size = record { plan = plan };
  ip_filter = to_slice ipf;
}

-- `m` is not nil; its callers dereference it first.
unfoldable pub to_maintenance : ServiceMaintenance → MaintenanceSpec
to_maintenance m = record { day_of_week = m.dow; time_of_day = m.time }
