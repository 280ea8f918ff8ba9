-- ===== src/BreakGlass/Examples.antt =====
-- The break-glass read at concrete inputs: one row of a tenant, and an operator with a token.
use snts_collectmind.Prelude.{Option, none, some, [], ◌∷◌, String, codes, ◌≡◌, refl, false, text_eq}
use snts_collectmind.Prelude.Json.{obj, str, end, field, get}
use snts_collectmind.Registry.Audit.{AuditEvent, find_row, same_key}
use snts_collectmind.Auth.Verifier.{
  key, claims, JwtLibrary, JwtVerifier, verify, verify_token, client, resolve_jwks_uri,
  signing_key_or_refresh, decode_with, principal_of, words,
}
use snts_collectmind.Auth.Principals.{
  Credentials, OperatorPrincipal, is_bearer, authenticated_principal,
  authenticated_operator_principal,
}
use snts_collectmind.BreakGlass.{
  BreakGlassRequest, incident_response, legal_hold, event_list, break_glass_row, insert_row, shown,
  events_of, break_glass_query, break_glass,
}
use snts_collectmind.BreakGlass.Recorded.{Admitted, Answered, break_glass-Answered}

abbrev an_issuer : JwtLibrary String String
an_issuer = record {
  discover = λ url. some (obj (field "jwks_uri" (str "u") end));
  make_client = λ uri ttl. uri;
  signing_key = λ c token. key "k";
  decode = λ token k audience issuer leeway.
      claims (field "tenant_id" (str "operator") (field "sub" (str "alice") end));
}

abbrev operator_verifier : JwtVerifier String
operator_verifier = record {
  issuer_url = "https://operators";
  audience = "collectmind-operator";
  jwks_cache_ttl = 300;
  clock_skew = 60;
  jwks_uri = none;
  jwks_client = none;
}

abbrev alice : OperatorPrincipal
alice = record { subject = "alice"; token_id = ""; scopes = [] }

abbrev token : Option Credentials
token = some (record { scheme = codes "Bearer"; credentials = "t" })

abbrev a_request : BreakGlassRequest
a_request = record { tenant_scope = "acme"; correlation_id = "c1"; reason_code = incident_response }

abbrev the_row : AuditEvent
the_row = break_glass_row "b1" "t1" alice a_request

answered :
    break_glass an_issuer false "b1" "t1" token operator_verifier a_request []
    ≡ (event_list (shown the_row ∷ []) 1, the_row ∷ [])
unfolding break_glass authenticated_operator_principal authenticated_principal is_bearer verify
    verify_token client resolve_jwks_uri signing_key_or_refresh decode_with principal_of get words
    break_glass_query insert_row find_row break_glass_row events_of text_eq
answered = refl

break_glass-Answered_example :
    (o : OperatorPrincipal) × Admitted an_issuer operator_verifier token o
    × Answered "b1" "t1" o a_request [] (shown the_row ∷ []) 1 (the_row ∷ [])
break_glass-Answered_example =
    break_glass-Answered an_issuer false "b1" "t1" token operator_verifier a_request []
      (shown the_row ∷ []) 1 (the_row ∷ []) answered

-- Another operator, for another tenant, with the same correlation.
abbrev bob : OperatorPrincipal
bob = record { subject = "bob"; token_id = ""; scopes = [] }

abbrev another_request : BreakGlassRequest
another_request = record {
  tenant_scope = "globex";
  correlation_id = "c1";
  reason_code = legal_hold;
}

there : find_row (same_key "c1" "break_glass") (the_row ∷ []) ≡ some the_row
unfolding find_row break_glass_row
there = refl
