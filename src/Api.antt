-- ===== src/Api.antt =====
-- apis/exoscale/v1/dbaas_types.go and conditions.go, with operator/mapper/conditions.go: the parts of
-- a resource that the kinds share. The condition types, reasons and constructors of
-- crossplane-runtime and SetConditions are a parameter, `Crossplane`.
use provider_exoscale.Prelude.{
  ℕ, String, Bool, true, false, ◌&&◌, List, [], ◌∷◌, map, Option, none, some, ◌==◌, if◌then◌else◌,
}
use provider_exoscale.Prelude.Tests
use provider_exoscale.Prelude.Text.{codes}
use provider_exoscale.Json.{RawExtension}
use provider_exoscale.Time.{TimeOfDay}

-- xpv1.Condition, without its time stamp.
pub record Condition : Type 0 where
  pub type : String
  pub status : String
  pub reason : String
  pub message : String

-- github.com/crossplane/crossplane-runtime/apis/common/v1 and k8s.io/api/core/v1.
pub record Crossplane : Type 0 where
  pub type_ready : String
  pub type_synced : String
  pub reason_deleting : String
  pub reason_reconcile_success : String
  pub condition_true : String
  pub condition_false : String
  pub available : Condition
  pub creating : Condition
  pub deleting : Condition
  pub set_conditions : List Condition → Condition → List Condition

-- FindStatusCondition; bucketcontroller has the same loop as findCondition.
unfoldable pub find_status_condition : List Condition → String → Option Condition
find_status_condition [] t = none
find_status_condition (c ∷ cs) t = if c.type == t then some c else find_status_condition cs t

module _ (xp : Crossplane) where
  unfoldable pub rebuilding : Condition
  rebuilding = record {
    type = xp.type_ready;
    status = xp.condition_false;
    reason = "Rebuilding";
    message = "The service is being provisioned";
  }

  unfoldable pub powered_off : Condition
  powered_off = record {
    type = xp.type_ready;
    status = xp.condition_false;
    reason = "PoweredOff";
    message = "The service is powered off";
  }

  unfoldable pub rebalancing : Condition
  rebalancing = record {
    type = xp.type_ready;
    status = xp.condition_false;
    reason = "Rebalancing";
    message = "The service is being rebalanced";
  }

  unfoldable pub running : Condition
  running = let c : Condition = xp.available in record c { message = "The service is running" }

  unfoldable pub updating : Condition
  updating = record {
    type = xp.type_ready;
    status = xp.condition_false;
    reason = "Updating";
    message = "The service is being updated";
  }

-- exoscalesdk.EnumServiceState: the four states that the controllers name, and the rest.
pub data ServiceState : Type 0 where
  running_state rebuilding_state poweroff_state rebalancing_state : ServiceState
  other_state : String → ServiceState

pub record SizeSpec : Type 0 where
  pub plan : String

-- Unicode's simple case folding, of which strings.EqualFold compares the results rune by rune.
pub record CaseFold : Type 0 where
  pub fold : ℕ → ℕ

abbrev pub same_runes : List ℕ → List ℕ → Bool
same_runes [] [] = true
same_runes [] (d ∷ ds) = false
same_runes (c ∷ cs) [] = false
same_runes (c ∷ cs) (d ∷ ds) = Tests.◌==◌ c d && same_runes cs ds

unfoldable pub equal_fold : CaseFold → String → String → Bool
equal_fold u s t = same_runes (map u.fold (codes s)) (map u.fold (codes t))

pub record DBaaSParameters : Type 0 where
  pub termination_protection : Bool
  pub size : SizeSpec
  pub ip_filter : List String

pub record NodeState : Type 0 where
  pub name : String
  pub role : String
  pub state : String

pub record Notification : Type 0 where
  pub level : String
  pub message : String
  pub type : String
  pub metadata : RawExtension

pub record BackupSpec : Type 0 where
  pub time_of_day : TimeOfDay

pub record MaintenanceSpec : Type 0 where
  pub day_of_week : String
  pub time_of_day : TimeOfDay

-- BackupSpec.Equals; TimeOfDay.String is the text itself.
unfoldable pub equals_backup : BackupSpec → BackupSpec → Bool
equals_backup this other = this.time_of_day == other.time_of_day

-- MaintenanceSpec.Equals.
unfoldable pub equals_maintenance : MaintenanceSpec → MaintenanceSpec → Bool
equals_maintenance ms other =
    ms.day_of_week == other.day_of_week && ms.time_of_day == other.time_of_day

-- SizeSpec.Equals.
unfoldable pub equals_size : CaseFold → SizeSpec → SizeSpec → Bool
unfolding equal_fold
equals_size u s other = equal_fold u s.plan other.plan
