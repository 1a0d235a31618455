-- ===== src/Iam/Admission.antt =====
-- The updates of an IAM key that the webhook admits: operator/iamkeycontroller/webhook.go.
use provider_exoscale.Prelude.{true, ◌≡◌, ◌↔◌, ◌⊎◌, refl, ap, Option, none, some, ok, eq_iff, arith}
use provider_exoscale.Prelude.Text.{same_strings_iff}
use provider_exoscale.Iam.{IamKey, IamKeyParameters, SecretRef}
use provider_exoscale.Iam.Webhook.{
  has_provider_config, same_parameters, same_secret_ref, compare_created, validate_update,
}

same_parameters_iff : (p q : IamKeyParameters) → (same_parameters p q ≡ true) ↔ (p ≡ q)
unfolding same_parameters
same_parameters_iff p q = (
  (λ h.
      let fields : (p.key_name ≡ q.key_name) × (p.zone ≡ q.zone) × (p.buckets ≡ q.buckets) = grind (
        arith,
        eq_iff p.key_name q.key_name,
        eq_iff p.zone q.zone,
        same_strings_iff p.buckets q.buckets,
      ) in
      let (name, zone, buckets) = fields in
      λ i. record { key_name = name i; zone = zone i; buckets = buckets i }),
  (λ e.
      let name = (eq_iff p.key_name q.key_name).1 (ap (λ x. x.key_name) e) in
      let zone = (eq_iff p.zone q.zone).1 (ap (λ x. x.zone) e) in
      let buckets = (same_strings_iff p.buckets q.buckets).1 (ap (λ x. x.buckets) e) in
      rw name (rw zone buckets)),
)

same_secret_ref_iff : (a b : Option SecretRef) → (same_secret_ref a b ≡ true) ↔ (a ≡ b)
unfolding same_secret_ref
same_secret_ref_iff none none = ((λ h. refl), (λ e. refl))
same_secret_ref_iff none (some b) = ((λ h. cc), (λ e. cc))
same_secret_ref_iff (some a) none = ((λ h. cc), (λ e. cc))
same_secret_ref_iff (some a) (some b) = (
  (λ h.
      let fields : (a.name ≡ b.name) × (a.namespace ≡ b.namespace) =
        grind (arith, eq_iff a.name b.name, eq_iff a.namespace b.namespace) in
      let (name, namespace) = fields in
      λ i. some (record { name = name i; namespace = namespace i })),
  (λ e.
      let same : a ≡ b = cc in
      let name = (eq_iff a.name b.name).1 (ap (λ x. x.name) same) in
      rw name ((eq_iff a.namespace b.namespace).1 (ap (λ x. x.namespace) same))),
)

-- An update of an IAM key is admitted exactly if the resource has no key ID in its status, or keeps its
-- specification and its reference to the connection secret, and the new resource names a ProviderConfig.
pub iam-admits_update_iff :
    (old_key new_key : IamKey)
    → (validate_update old_key new_key ≡ ok tt) ↔ (
        ((old_key.at_provider.key_id ≡ "")
          ⊎ ((new_key.for_provider ≡ old_key.for_provider)
              × (new_key.secret_ref ≡ old_key.secret_ref)))
        × (has_provider_config new_key.provider_config ≡ true))
unfolding validate_update compare_created
iam-admits_update_iff old_key new_key = grind (
  arith,
  eq_iff old_key.at_provider.key_id "",
  same_parameters_iff new_key.for_provider old_key.for_provider,
  same_secret_ref_iff new_key.secret_ref old_key.secret_ref,
)
