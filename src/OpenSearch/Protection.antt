-- ===== src/OpenSearch/Protection.antt =====
-- Fields of an OpenSearch specification that handlers do not look at: observe.go, create.go and update.go
-- of operator/opensearchcontroller.
use provider_exoscale.Prelude.{Bool, panic, ◌≡◌, refl, wrap, map_err, Result, ok, err, ◌>>=◌}
use provider_exoscale.Json.{JsonCodec, RawExtension}
use provider_exoscale.Api.{Crossplane, CaseFold, BackupSpec}
use provider_exoscale.Managed.{ConnectionDetails}
use provider_exoscale.Dbaas.{settings_with_defaults, or_given, exists_as}
use provider_exoscale.OpenSearch.{
  OpenSearchParameters, OpenSearchObservation, OpenSearch, get_instance_name, ServiceOpensearch,
  OpensearchApi,
}
use provider_exoscale.OpenSearch.Handlers.{
  is_up_to_date, map_observation, map_parameters, connection_details, set_settings_defaults, answer,
  status_set, service_read, create, update, observe,
}

-- The specification with another termination protection and another backup time.
abbrev pub with_unused : Bool → BackupSpec → OpenSearch → OpenSearch
with_unused b t i =
    let spec = i.for_provider in
    let p = spec.dbaas in
    record i {
      for_provider = record spec { dbaas = record p { termination_protection = b }; backup = t };
    }

-- The specification with another termination protection.
abbrev pub protected : Bool → OpenSearch → OpenSearch
protected b i =
    let spec = i.for_provider in
    let p = spec.dbaas in
    record i { for_provider = record spec { dbaas = record p { termination_protection = b } } }

-- The specification with another backup time.
abbrev pub backed_up : BackupSpec → OpenSearch → OpenSearch
backed_up t i = let spec = i.for_provider in record i { for_provider = record spec { backup = t } }

module _ {S W : Type 0} (codec : JsonCodec) (api : OpensearchApi S W) where
  abbrev with_settings : OpenSearchParameters → RawExtension → OpenSearchParameters
  with_settings spec s = record spec { open_search_settings = s }

  bind_cong :
      {A B : Type 0} (m : Result A) (f g : A → Result B)
      → ((a : A) → f a ≡ g a)
      → (m >>= f) ≡ (m >>= g)
  bind_cong (ok a) f g h = h a
  bind_cong (err e) f g h = refl
  bind_cong (panic p) f g h = refl

  compared_unseen :
      (u : CaseFold) (b : Bool) (t : BackupSpec) (i : OpenSearch) (params : OpenSearchParameters)
      (details : ConnectionDetails) (r : Result RawExtension)
      → (or_given
            (with_unused b t i).for_provider
            (r >>= λ s. ok (with_settings (with_unused b t i).for_provider s))
          >>= λ current.
              is_up_to_date codec u current params >>= λ same. ok (exists_as same details ""))
        ≡ (or_given i.for_provider (r >>= λ s. ok (with_settings i.for_provider s)) >>= λ current.
            is_up_to_date codec u current params >>= λ same. ok (exists_as same details ""))
  unfolding is_up_to_date
  compared_unseen u b t i params details (ok s) = refl
  compared_unseen u b t i params details (err e) = refl
  compared_unseen u b t i params details (panic p) = refl

  answer_unseen :
      (xp : Crossplane) (u : CaseFold) (b : Bool) (t : BackupSpec) (i : OpenSearch)
      (service : ServiceOpensearch S) (w : W)
      → answer codec api xp u (with_unused b t i).for_provider service w
        ≡ answer codec api xp u i.for_provider service w
  unfolding set_settings_defaults
  answer_unseen xp u b t i service w =
      bind_cong
        (map_err (wrap "cannot parse connection details: %w")
          (connection_details codec api service w))
        _ _
        (λ details.
          bind_cong
            (map_err (wrap "cannot parse parameters: %w")
              (map_parameters codec api service i.for_provider.zone))
            _ _
            (λ params. compared_unseen u b t i params details (
              settings_with_defaults codec api "opensearch" i.for_provider.open_search_settings w)))

  set_unseen :
      (xp : Crossplane) (u : CaseFold) (b : Bool) (t : BackupSpec) (i : OpenSearch)
      (service : ServiceOpensearch S) (w : W) (r : Result OpenSearchObservation)
      → (status_set codec api xp u (with_unused b t i) service w r).1
        ≡ (status_set codec api xp u i service w r).1
  set_unseen xp u b t i service w (ok o) = answer_unseen xp u b t i service w
  set_unseen xp u b t i service w (err e) = refl
  set_unseen xp u b t i service w (panic p) = refl

  read_unseen :
      (xp : Crossplane) (u : CaseFold) (b : Bool) (t : BackupSpec) (i : OpenSearch) (w : W)
      (r : Result (ServiceOpensearch S))
      → (service_read codec api xp u (with_unused b t i) w r).1
        ≡ (service_read codec api xp u i w r).1
  read_unseen xp u b t i w (ok service) =
      set_unseen xp u b t i service w (map_observation codec api service)
  read_unseen xp u b t i w (err e) = refl
  read_unseen xp u b t i w (panic p) = refl

  -- Observe gives the same answer whatever termination protection is specified: a change of it is
  -- never found out of date.
  pub observe_ignores_protection :
      (xp : Crossplane) (u : CaseFold) (b : Bool) (i : OpenSearch) (w : W)
      → (observe codec api xp u (protected b i) w).1 ≡ (observe codec api xp u i w).1
  unfolding observe get_instance_name
  observe_ignores_protection xp u b i w =
      read_unseen xp u b i.for_provider.backup i w (api.get_service (get_instance_name i) w)

  -- No handler looks at the backup time of the specification: Create and Update send the same request,
  -- and Observe gives the same answer, whatever it is.
  pub backup_ignored :
      (xp : Crossplane) (u : CaseFold) (t : BackupSpec) (i : OpenSearch) (w : W)
      → (create codec api (backed_up t i) w ≡ create codec api i w)
        × (update codec api (backed_up t i) w ≡ update codec api i w)
        × ((observe codec api xp u (backed_up t i) w).1 ≡ (observe codec api xp u i w).1)
  unfolding create update observe get_instance_name
  backup_ignored xp u t i w = (
    refl,
    refl,
    read_unseen xp u i.for_provider.dbaas.termination_protection t i w
        (api.get_service (get_instance_name i) w),
  )
