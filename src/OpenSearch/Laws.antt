-- ===== src/OpenSearch/Laws.antt =====
-- An OpenSearch instance that has been created is found up to date.
use provider_exoscale.Prelude.{
  String, true, false, ◌≡◌, refl, ap, ◌∙◌, List, [], Option, some, wrap, ok, >>=-eq-ok, eq_refl,
}
use mathlib.Core.Path.{subst}
use provider_exoscale.Json.{JsonCodec, RawExtension}
use provider_exoscale.Api.{Notification, Crossplane, CaseFold, equals_maintenance}
use provider_exoscale.Managed.{ConnectionDetails}
use provider_exoscale.Mapper.Compare.{compare_settings}
use provider_exoscale.Mapper.Conversions.{to_notifications}
use provider_exoscale.Dbaas.{decoded_settings, settings_with_defaults, submit, created, exists_as}
use provider_exoscale.Dbaas.Laws.{equals_size_refl, is_same_string_set_refl, ok-injective, noted_ok}
use provider_exoscale.OpenSearch.{
  OpenSearchParameters, OpenSearch, get_instance_name, ServiceOpensearch, UpdateRequest,
  OpensearchApi,
}
use provider_exoscale.OpenSearch.Handlers.{
  same_fields, is_up_to_date, observed, map_observation, map_parameters, connection_details,
  set_settings_defaults, body_with, with_notifications, send_create, request, create, answer,
  status_set, service_read, observe,
}

-- A service that has been given a request: it reports the fields of the request, and the rest of
-- what it reports is that of `base`.
abbrev pub provisioned : {S : Type 0} → ServiceOpensearch S → UpdateRequest S → ServiceOpensearch S
provisioned base body = record base {
  maintenance = some body.maintenance;
  termination_protection = some body.termination_protection;
  plan = body.plan;
  ip_filter = body.ip_filter;
  opensearch_settings = body.opensearch_settings;
}

module _ {S W : Type 0} (codec : JsonCodec) (api : OpensearchApi S W) where
  abbrev with_settings : OpenSearchParameters → RawExtension → OpenSearchParameters
  with_settings spec s = record spec { open_search_settings = s }

  request_body :
      (spec : OpenSearchParameters) (body : UpdateRequest S)
      → request codec api spec ≡ ok body
      → (settings : S) × (body_with codec api spec settings ≡ body)
  request_body spec body sent =
      let (settings, _, last) =
        >>=-eq-ok
          (decoded_settings codec api (wrap "cannot map opensearchInstance settings: %w")
            spec.open_search_settings.raw)
          (λ settings. ok (body_with codec api spec settings)) sent in
      (settings, ok-injective last)

  -- What mapParameters makes of a service with such a body.
  abbrev reported : OpenSearchParameters → String → OpenSearchParameters
  reported spec raw = record {
    maintenance = spec.maintenance;
    backup = record { time_of_day = "" };
    dbaas = record {
      termination_protection = false;
      size = spec.dbaas.size;
      ip_filter = spec.dbaas.ip_filter;
    };
    zone = spec.zone;
    major_version = "";
    open_search_settings = record { raw = raw };
  }

  same_fields-reported :
      (u : CaseFold) (spec : OpenSearchParameters) (s : RawExtension) (raw : String)
      → same_fields u (with_settings spec s) (reported spec raw) ≡ true
  unfolding equals_maintenance
  same_fields-reported u spec s raw =
      rw
        (
          eq_refl spec.maintenance.day_of_week,
          eq_refl spec.maintenance.time_of_day,
          eq_refl spec.zone,
          equals_size_refl u spec.dbaas.size,
          is_same_string_set_refl spec.dbaas.ip_filter,
        )
        refl

  up_to_date :
      (u : CaseFold) (spec : OpenSearchParameters) (s : RawExtension) (raw : String)
      → compare_settings codec s (record { raw = raw }) ≡ ok true
      → is_up_to_date codec u (with_settings spec s) (reported spec raw) ≡ ok true
  unfolding is_up_to_date
  up_to_date u spec s raw same = rw same (ap ok (rw (same_fields-reported u spec s raw) refl))

  read_back :
      (spec : OpenSearchParameters) (base : ServiceOpensearch S) (settings : S) (raw : String)
      → api.marshal_settings settings ≡ ok raw
      → map_parameters codec api (provisioned base (body_with codec api spec settings)) spec.zone
        ≡ ok (reported spec raw)
  unfolding map_parameters
  read_back spec base settings raw encoded = rw encoded refl

  defaulted :
      (spec : OpenSearchParameters) (w : W) (s : RawExtension)
      → settings_with_defaults codec api "opensearch" spec.open_search_settings w ≡ ok s
      → set_settings_defaults codec api spec w ≡ ok (with_settings spec s)
  unfolding set_settings_defaults
  defaulted spec w s filled = rw filled refl

  answered :
      (u : CaseFold) (xp : Crossplane) (spec current params : OpenSearchParameters)
      (service : ServiceOpensearch S) (w : W) (details : ConnectionDetails)
      → map_parameters codec api service spec.zone ≡ ok params
      → connection_details codec api service w ≡ ok details
      → set_settings_defaults codec api spec w ≡ ok current
      → is_up_to_date codec u current params ≡ ok true
      → answer codec api xp u spec service w ≡ ok (exists_as true details "")
  answered u xp spec current params service w details mapped detailed filled same =
      rw (detailed, mapped, filled, same) refl

  -- Create converges: where the body of the request can be made and Exoscale accepts it, Create
  -- succeeds, and if Exoscale then reports a service with the fields of that body, its settings,
  -- notifications and connection details can be read, and the specified settings with their defaults
  -- compare equal to the reported ones, the next Observe finds the service up to date.
  pub opensearch_converges :
      (xp : Crossplane) (u : CaseFold) (i : OpenSearch) (base : ServiceOpensearch S)
      (body : UpdateRequest S) (raw : String) (ns : Option (List Notification))
      (details : ConnectionDetails) (s : RawExtension) (w w' : W)
      → request codec api i.for_provider ≡ ok body
      → api.create_service
          (get_instance_name i)
          (record { version = i.for_provider.major_version; rest = body })
          w
        ≡ (w', ok tt)
      → api.get_service (get_instance_name i) w' ≡ ok (provisioned base body)
      → api.marshal_settings body.opensearch_settings ≡ ok raw
      → to_notifications codec (some base.notifications) ≡ ok ns
      → connection_details codec api (provisioned base body) w' ≡ ok details
      → settings_with_defaults codec api "opensearch" i.for_provider.open_search_settings w' ≡ ok s
      → compare_settings codec s (record { raw = raw }) ≡ ok true
      → (create codec api i w ≡ (w', ok tt))
        × ((observe codec api xp u i w').1 ≡ ok (exists_as true details ""))
  unfolding create observe map_observation
  opensearch_converges xp u i base body raw ns details s w w' sent accepted found encoded notes
        detailed filled same =
      let spec = i.for_provider in
      let service = provisioned base body in
      let (settings, built) = request_body spec body sent in
      let mapped : map_parameters codec api service spec.zone ≡ ok (reported spec raw) =
        subst
          (λ b.
            api.marshal_settings b.opensearch_settings ≡ ok raw
            → map_parameters codec api (provisioned base b) spec.zone ≡ ok (reported spec raw))
          built (read_back spec base settings raw) encoded in
      let (o, noted_as) =
        noted_ok (with_notifications codec api service raw body.maintenance)
          (with_notifications codec api service raw body.maintenance [])
          (to_notifications codec (some base.notifications)) notes in
      (
        ap (λ r. submit r (send_create codec api i) w) sent
            ∙ ap (created api.error_text (wrap "cannot create OpenSearch Instance: %v, \nerr: %w"))
                accepted,
        ap (λ r. (service_read codec api xp u i w' r).1) found
            ∙ ap (λ r. (status_set codec api xp u i service w' r).1)
                (ap (observed codec api service) encoded ∙ noted_as)
            ∙ answered u xp spec (with_settings spec s) (reported spec raw) service w' details
                mapped detailed (defaulted spec w' s filled) (up_to_date u spec s raw same),
      )
