-- ===== src/Iam/Role.antt =====
-- operator/iamkeycontroller/util.go: the role and the policy of a key, and their comparison by
-- reflect.DeepEqual in observe.go.
use Prim.Native.String
use provider_exoscale.Prelude.{
  String, Bool, true, false, ◌&&◌, List, [], ◌∷◌, ◌++◌, Option, none, some, ◌==◌, if◌then◌else◌,
  length,
}
use provider_exoscale.Prelude.Tests

-- IAMServicePolicyRuleActionAllow and IAMServicePolicyRuleActionDeny.
pub data Action : Type 0 where
  allow deny : Action

pub record Rule : Type 0 where
  pub action : Action
  pub expression : String

-- IAMServicePolicyTypeRules, and the other types of the SDK by their texts.
pub data PolicyType : Type 0 where
  rules_type : PolicyType
  other_type : String → PolicyType

pub record ServicePolicy : Type 0 where
  pub type : PolicyType
  pub rules : List Rule

-- The default strategy, and the services by name.
pub record Policy : Type 0 where
  pub default_strategy : Action
  pub services : List (String × ServicePolicy)

-- exoscalesdk.CreateIAMRoleRequest; no labels are set.
pub record CreateRoleRequest : Type 0 where
  pub name : String
  pub description : String
  pub labels : List (String × String)
  pub permissions : List String
  pub editable : Bool
  pub policy : Policy

abbrev pub not_bucket : String → String
not_bucket bucket = String.◌++◌ "resources.bucket != " (String.◌++◌ "'" (String.◌++◌ bucket "'"))

-- The rule for one bucket, in the loop of createRole.
abbrev pub bucket_rule : String → Rule
bucket_rule bucket = record { action = deny; expression = not_bucket bucket }

unfoldable pub bucket_rules : List String → List Rule
bucket_rules [] = []
bucket_rules (bucket ∷ buckets) = bucket_rule bucket ∷ bucket_rules buckets

abbrev pub listing_rule : Rule
listing_rule = record {
  action = deny;
  expression = "operation in ['list-sos-buckets-usage', 'list-buckets']";
}

abbrev pub allow_rule : Rule
allow_rule = record { action = allow; expression = "true" }

-- createRole.
unfoldable pub create_role : String → List String → CreateRoleRequest
unfolding bucket_rules
create_role key_name buckets = record {
  name = key_name;
  description = "IAM Role for SOS+IAM creation, it was autogenerated by provider-exoscale";
  labels = [];
  permissions = "bypass-governance-retention" ∷ [];
  editable = true;
  policy = record {
    default_strategy = deny;
    services =
        (
          "sos",
          record {
            type = rules_type;
            rules = listing_rule ∷ (bucket_rules buckets ++ allow_rule ∷ []);
          },
        )
        ∷ [];
  };
}

abbrev pub action_eq : Action → Action → Bool
action_eq allow allow = true
action_eq deny deny = true
action_eq _ _ = false

unfoldable pub rules_eq : List Rule → List Rule → Bool
rules_eq [] [] = true
rules_eq [] (r ∷ rs) = false
rules_eq (r ∷ rs) [] = false
rules_eq (r ∷ rs) (q ∷ qs) =
    action_eq r.action q.action && r.expression == q.expression && rules_eq rs qs

unfoldable pub find_service : String → List (String × ServicePolicy) → Option ServicePolicy
find_service k [] = none
find_service k ((j, p) ∷ m) = if j == k then some p else find_service k m

abbrev type_eq : PolicyType → PolicyType → Bool
type_eq rules_type rules_type = true
type_eq (other_type s) (other_type t) = s == t
type_eq _ _ = false

abbrev same_service : ServicePolicy → Option ServicePolicy → Bool
same_service p none = false
same_service p (some q) = type_eq p.type q.type && rules_eq p.rules q.rules

abbrev services_in : List (String × ServicePolicy) → List (String × ServicePolicy) → Bool
services_in [] other = true
services_in ((k, p) ∷ m) other = same_service p (find_service k other) && services_in m other

-- reflect.DeepEqual on the pointers to two policies, of which the second is not nil: maps are equal if
-- they have as many keys and equal values.
unfoldable pub policy_eq : Option Policy → Policy → Bool
unfolding rules_eq find_service
policy_eq none q = false
policy_eq (some p) q =
    action_eq p.default_strategy q.default_strategy
    && Tests.◌==◌ (length p.services) (length q.services)
    && services_in p.services q.services
