-- ===== src/Iam/Delete.antt =====
-- operator/iamkeycontroller: delete.go and update.go.
use provider_exoscale.Prelude.{
  String, List, [], ◌∷◌, ◌++◌, none, wrap, Result, ok, err, panic, map_err, if◌then◌else◌,
}
use provider_exoscale.Api.{Crossplane, updating}
use provider_exoscale.Managed.{Event}
use provider_exoscale.Pipeline.{Step, new_step, Runner}
use provider_exoscale.Iam.{IamKey, Context}
use provider_exoscale.Iam.Role.{CreateRoleRequest, create_role}
use provider_exoscale.Iam.Create.{Operation}

-- exoscalesdk.UpdateIAMRoleRequest.
pub record UpdateRoleRequest : Type 0 where
  pub description : String
  pub labels : List (String × String)
  pub permissions : List String

pub record DeleteApi (W : Type 0) : Type 0 where
  pub delete_api_key : String → W → W × Result Operation
  pub delete_iam_role : String → W → W × Result Operation
  pub update_iam_role : String → UpdateRoleRequest → W → W × Result (Unit {0})

-- The fields of the role that Update sends.
unfoldable pub update_request : CreateRoleRequest → UpdateRoleRequest
update_request role = record {
  description = role.description;
  labels = role.labels;
  permissions = role.permissions;
}

module _ {W : Type 0} (api : DeleteApi W) where
  -- After a call: an operation that is not a success returns its error, which is nil.
  abbrev pub role_deleted : Context W → W × Result Operation → Context W × Result (Unit {0})
  role_deleted c o = elim o.1 [
    | ok op ↦ (record c { world = o.0 }, ok tt)
    | err e ↦ (record c { world = o.0 }, err e)
    | panic p ↦ (record c { world = o.0 }, panic p)
  ]

  abbrev pub key_deleted : Context W → W × Result Operation → Context W × Result (Unit {0})
  key_deleted c o = elim o.1 [
    | ok op ↦
        if op.success
        then role_deleted c (api.delete_iam_role c.iam_key.at_provider.role_id o.0)
        else (record c { world = o.0 }, ok tt)
    | err e ↦ (record c { world = o.0 }, err e)
    | panic p ↦ (record c { world = o.0 }, panic p)
  ]

  unfoldable pub delete_iam_key : Context W → Context W × Result (Unit {0})
  delete_iam_key c = key_deleted c (api.delete_api_key c.iam_key.at_provider.key_id c.world)

  unfoldable pub emit_deletion_event : Context W → Context W × Result (Unit {0})
  emit_deletion_event c =
      let e : Event = record { reason = "Deleted"; message = "IAMKey deleted" } in
      (record c { events = c.events ++ e ∷ [] }, ok tt)

  abbrev pub delete_steps : List (Step (Context W))
  delete_steps =
      new_step "delete IAM key" delete_iam_key ∷ new_step "emit event" emit_deletion_event ∷ []

  unfoldable pub delete :
      Crossplane → Runner (Context W) → IamKey → W → Context W × Result (Unit {0})
  delete xp r k w =
      let k' = record k { conditions = xp.set_conditions k.conditions xp.deleting } in
      let (c, result) = r.run delete_steps (record {
        iam_key = k';
        iam_exoscale_key = none;
        credentials_secret = none;
        world = w;
        events = [];
      }) in
      (c, map_err (wrap "cannot deprovision iam key") result)

  unfoldable pub update : Crossplane → IamKey → W → (IamKey × W) × Result (Unit {0})
  update xp k w =
      let k' = record k { conditions = xp.set_conditions k.conditions (updating xp) } in
      let p = k.for_provider in
      let (w', r) =
        api.update_iam_role k.at_provider.role_id
          (update_request (create_role p.key_name p.buckets)) w in
      ((k', w'), r)
