-- ===== src/Erasure/Examples.antt =====
-- Erasure at concrete inputs: a vehicle in a policy with another, and alone in one.
use snts_collectmind.Prelude.{true, false, [], ◌∷◌, any, All, ◌≡◌, refl}
use snts_collectmind.Erasure.{
  vehicle, erased_mode, ErasureRequest, failed, completed, partial, Stores, Outage, covers,
  observed, dispatch, status_of, erase_registry, update_scopes, update_scope, without,
  erase_telemetry, redact_audit,
}
use snts_collectmind.Erasure.Everywhere.{erased_everywhere, only_in, last_vehicle_blocks_erasure}

abbrev no_outage : Outage
no_outage = record { registry = false; telemetry = false; audit = false }

abbrev a_request : ErasureRequest
a_request = record { subject_kind = vehicle; subject_identifier = "v1"; mode = erased_mode }

abbrev shared : Stores
shared = record {
  policies = record { tenant_id = "acme"; policy_id = "p1"; vehicle_scope = "v1" ∷ "v2" ∷ [] } ∷ [];
  telemetry = record { tenant_id = "acme"; vehicle_id = "v1"; value = "3.1" } ∷ [];
  audit = [];
  requests = [];
}

abbrev alone : Stores
alone = record shared {
  policies = record { tenant_id = "acme"; policy_id = "p1"; vehicle_scope = "v1" ∷ [] } ∷ [];
}

completes : status_of (dispatch no_outage "acme" "r1" a_request shared).0 ≡ completed
unfolding dispatch erase_registry update_scopes update_scope without erase_telemetry redact_audit
completes = refl

erased_everywhere_example :
    All
      (λ p. covers "acme" "v1" p ≡ false)
      (dispatch no_outage "acme" "r1" a_request shared).1.policies
    × All
        (λ o. observed "acme" "v1" o ≡ false)
        (dispatch no_outage "acme" "r1" a_request shared).1.telemetry
erased_everywhere_example = erased_everywhere no_outage "acme" "r1" a_request shared refl completes

is_alone : any (only_in "acme" "v1") alone.policies ≡ true
unfolding without
is_alone = refl

last_vehicle_blocks_erasure_example :
    ((dispatch no_outage "acme" "r1" a_request alone).1.policies ≡ alone.policies)
    × ((dispatch no_outage "acme" "r1" a_request alone).0.registry ≡ failed)
    × (status_of (dispatch no_outage "acme" "r1" a_request alone).0 ≡ partial)
last_vehicle_blocks_erasure_example =
    last_vehicle_blocks_erasure no_outage "acme" "r1" a_request alone refl is_alone
