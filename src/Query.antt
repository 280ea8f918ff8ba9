-- ===== src/Query.antt =====
-- src/collectmind/query/api.py: the guard on identifiers, and the trail of a correlation.
pub mod Trail
pub mod Handlers
mod Examples
use snts_collectmind.Prelude.{
  Bool, true, false, ◌&&◌, List, [], ◌∷◌, String, Text, codes, all, length, leb, if◌then◌else◌,
}
use snts_collectmind.Routes.{id_char, without_newline}
use snts_collectmind.Registry.Audit.{AuditEvent, list_for_correlation}

-- _SAFE_ID.match(value); the class of characters is that of _ID_SEGMENT of app.py.
unfoldable pub safe_id : Text → Bool
unfolding without_newline
safe_id value =
    let s = without_newline value in all id_char s && leb 1 (length s) && leb (length s) 256

-- NotFound(kind, value), or the content of the response.
pub data Answer {ℓ} (A : Type ℓ) : Type ℓ where
  not_found : String → String → Answer A
  content : A → Answer A

-- What goes on once _ensure_safe has let the value through.
abbrev pub ensure_safe {ℓ} : {A : Type ℓ} → String → String → Answer A → Answer A
ensure_safe kind value next = if safe_id (codes value) then next else not_found kind value

-- if not events: raise NotFound(...)
unfoldable pub unless_none {ℓ} : {A : Type ℓ} → String → String → List A → Answer (List A)
unless_none kind value [] = not_found kind value
unless_none kind value (x ∷ xs) = content (x ∷ xs)

-- `tenant_id` is the principal's.
unfoldable pub audit_for_correlation : String → String → List AuditEvent → Answer (List AuditEvent)
unfolding unless_none list_for_correlation safe_id
audit_for_correlation tenant_id correlation_id table = ensure_safe "correlation_id" correlation_id (
    unless_none "correlation_id" correlation_id
      (list_for_correlation tenant_id correlation_id table))
