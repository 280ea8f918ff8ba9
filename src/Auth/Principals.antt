-- ===== src/Auth/Principals.antt =====
-- src/collectmind/auth/dependencies.py and operator_principal.py: what a route that wants a
-- principal does before its handler.
use snts_collectmind.Prelude.{
  ℕ, Bool, Option, none, some, List, map, String, Text, codes, text_eq, lower_char, if◌then◌else◌,
  ◌==◌, ◌⊎◌, inl, inr, ◌&&◌, not,
}
use snts_collectmind.Errors.{CollectMindError, auth_invalid_token}
use snts_collectmind.Auth.Verifier.{
  Principal, Foreign, Raised, typed, foreign, JwtLibrary, JwtVerifier, verify,
}

-- HTTPAuthorizationCredentials, as HTTPBearer(auto_error=False) gives them.
pub record Credentials : Type 0 where
  pub scheme : Text
  pub credentials : String

-- HTTPException(status_code, detail), or an exception that goes on to the server: a 500.
pub data Refusal : Type 0 where
  http_exception : ℕ → CollectMindError → Refusal
  unhandled : Foreign → Refusal

-- _to_http_exception
abbrev pub to_http_exception : CollectMindError → Refusal
to_http_exception e = http_exception e.status e

-- except CollectMindError
abbrev pub refusal_of : Raised → Refusal
refusal_of (typed e) = to_http_exception e
refusal_of (foreign f) = unhandled f

-- OperatorPrincipal
pub record OperatorPrincipal : Type 0 where
  pub subject : String
  pub token_id : String
  pub scopes : List Text

unfoldable pub is_bearer : Credentials → Bool
is_bearer c = text_eq (map lower_char c.scheme) (codes "bearer") && not (c.credentials == "")

module _ {K C : Type 0} (lib : JwtLibrary K C) where
  abbrev pub caught : (Raised ⊎ Principal) × JwtVerifier C → (Refusal ⊎ Principal) × JwtVerifier C
  caught (inl e, v) = (inl (refusal_of e), v)
  caught (inr p, v) = (inr p, v)

  unfoldable pub authenticated_principal :
      Option Credentials → JwtVerifier C → (Refusal ⊎ Principal) × JwtVerifier C
  unfolding is_bearer
  authenticated_principal none v = (inl (to_http_exception auth_invalid_token), v)
  authenticated_principal (some c) v =
      if is_bearer c
      then caught (verify lib c.credentials v)
      else (inl (to_http_exception auth_invalid_token), v)

  abbrev pub as_operator :
      (Refusal ⊎ Principal) × JwtVerifier C → (Refusal ⊎ OperatorPrincipal) × JwtVerifier C
  as_operator (inl e, v) = (inl e, v)
  as_operator (inr p, v) =
      (inr (record { subject = p.subject; token_id = p.token_id; scopes = p.scopes }), v)

  -- The same checks with the verifier of the operators.
  unfoldable pub authenticated_operator_principal :
      Option Credentials → JwtVerifier C → (Refusal ⊎ OperatorPrincipal) × JwtVerifier C
  unfolding authenticated_principal
  authenticated_operator_principal c v = as_operator (authenticated_principal c v)
