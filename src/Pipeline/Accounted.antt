-- ===== src/Pipeline/Accounted.antt =====
-- What GraphRunner.run_async leaves in the audit trail of its session.
use snts_collectmind.Prelude.{◌⊎◌}
use snts_collectmind.Graph.Session.{PolicyGenerationSession}
use snts_collectmind.Pipeline.{RunEnd, returned, escaped, out_of_fuel}
use snts_collectmind.Pipeline.Written.{Listed, Blocked}

-- How a call is accounted for: a call that returns leaves a rejection or a validation of the
-- session's correlation for its tenant to see; one that raises finds the rejection's key taken by a
-- row that the tenant does not see.
abbrev pub Accounted : PolicyGenerationSession → RunEnd → Type 0
Accounted session (returned s) =
    Listed session.tenant_id session.correlation_id "rejected" s.audit
    ⊎ Listed session.tenant_id session.correlation_id "validated" s.audit
Accounted session (escaped s) = Blocked session.tenant_id session.correlation_id "rejected" s.audit
Accounted session out_of_fuel = ⊥
