-- ===== src/Errors.antt =====
-- src/collectmind/errors.py: the typed errors, with what a response carries of them.
use Prim.Native.String.{◌++◌ as ◌<>◌}
use snts_collectmind.Prelude.{ℕ, Option, none, some, String}
use snts_collectmind.Prelude.Json.{str, Fields, end, field}

-- `Error` is what `to_response` makes of the same four.
pub record CollectMindError : Type 0 where
  pub code : String
  pub status : ℕ
  pub reason : String
  pub details : Option Fields

abbrev pub auth_invalid_token : CollectMindError
auth_invalid_token = record {
  code = "AUTH_INVALID_TOKEN";
  status = 401;
  reason = "Authentication failed: invalid or unsigned token.";
  details = none;
}

abbrev pub auth_expired : CollectMindError
auth_expired = record {
  code = "AUTH_EXPIRED";
  status = 401;
  reason = "Authentication failed: token expired.";
  details = none;
}

abbrev pub auth_tenant_missing : CollectMindError
auth_tenant_missing = record {
  code = "AUTH_TENANT_MISSING";
  status = 401;
  reason = "Authentication failed: tenant_id claim missing or empty.";
  details = none;
}

unfoldable pub resource_not_found : String → String → CollectMindError
resource_not_found resource identifier = record {
  code = "NOT_FOUND";
  status = 404;
  reason = resource <> " not found.";
  details = some (field "identifier" (str identifier) end);
}

unfoldable pub dependency_unavailable : String → CollectMindError
dependency_unavailable dependency = record {
  code = "DEPENDENCY_UNAVAILABLE";
  status = 503;
  reason = "Internal dependency unavailable: " <> (dependency <> ".");
  details = some (field "dependency" (str dependency) end);
}
