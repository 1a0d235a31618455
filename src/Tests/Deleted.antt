-- ===== src/Tests/Deleted.antt =====
-- A bucket that is deleted already, and the client that Connect gives it.
use provider_exoscale.Prelude.{String, ◌≡◌, ◌↔◌, [], ◌∷◌, ok, Result}
use provider_exoscale.Bucket.{Bucket}
use provider_exoscale.Bucket.Connect.{ParsedUrl, noop_client, connect}
use provider_exoscale.Bucket.Deleted.{HasCondition, connect-noop_client_iff}
use provider_exoscale.Tests.Fixtures.{crossplane, bucket}
use provider_exoscale.Tests.Stores.{folding}

abbrev deleted : Bucket
deleted =
    let b = bucket "DeleteAll" "data" in
    let s = b.status in
    record b {
      status = record s {
        conditions =
            record { type = "Synced"; status = "True"; reason = "ReconcileSuccess"; message = "" }
            ∷ record { type = "Ready"; status = "False"; reason = "Deleting"; message = "" }
            ∷ [];
      };
    }

abbrev url : String → Result ParsedUrl
url s = ok (record { scheme = "https"; host = s; path = "" })

connect-noop_client_iff_example :
    let connected =
      connect crossplane folding url
        (λ name. ok ("key", "secret"))
        (λ options. ok options.endpoint)
        deleted in
    ((connected.1 ≡ ok noop_client) ↔ (
      HasCondition deleted.status.conditions "Ready" "False" "Deleting"
      × HasCondition deleted.status.conditions "Synced" "True" "ReconcileSuccess"))
    × (connected.1 ≡ ok noop_client → connected.0 ≡ deleted)
connect-noop_client_iff_example =
    connect-noop_client_iff crossplane folding url (λ name. ok ("key", "secret"))
      (λ options. ok options.endpoint) deleted
