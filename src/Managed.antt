-- ===== src/Managed.antt =====
-- github.com/crossplane/crossplane-runtime/pkg/reconciler/managed: what an external client answers.
use provider_exoscale.Prelude.{String, Bool, false, List, []}

-- map[string][]byte, in some order.
abbrev pub ConnectionDetails : Type 0
ConnectionDetails = List (String × String)

pub record ExternalObservation : Type 0 where
  pub resource_exists : Bool
  pub resource_up_to_date : Bool
  pub connection_details : ConnectionDetails
  pub diff : String

-- ExternalObservation{}.
abbrev pub no_observation : ExternalObservation
no_observation = record {
  resource_exists = false;
  resource_up_to_date = false;
  connection_details = [];
  diff = "";
}

-- An event of the recorder: its reason and its message.
pub record Event : Type 0 where
  pub reason : String
  pub message : String
