-- ===== src/Auth/Examples.antt =====
-- The verifier at concrete inputs: an issuer with one key, whose old address knows none.
use snts_collectmind.Prelude.{
  none, some, [], ◌∷◌, String, codes, if◌then◌else◌, ◌==◌, ◌≡◌, refl, arith, inl, inr, eq_iff,
}
use snts_collectmind.Prelude.Json.{obj, str, int, Fields, end, field, get}
use snts_collectmind.Auth.Verifier.{
  Principal, key, client_error, undecodable, claims, expired_signature, JwtLibrary, JwtVerifier,
  verify, verify_token, client, resolve_jwks_uri, signing_key_or_refresh, decode_with, principal_of,
  words, foreign, attribute_error,
}
use snts_collectmind.Auth.Verifier.Trusted.{Trusted, verified_only_if_Trusted}
use snts_collectmind.Auth.Verifier.Answer.{answer}
use snts_collectmind.Auth.Verifier.Rotation.{refreshed, verify_rotated_lem}

abbrev payload : Fields
payload = field "tenant_id" (str "acme") (field "sub" (str "svc") (field "scope" (str "a b") end))

abbrev an_issuer : JwtLibrary String String
an_issuer = record {
  discover = λ url. some (obj (field "jwks_uri" (str "new") end));
  make_client = λ uri ttl. uri;
  signing_key = λ c token.
      if token == "junk" then undecodable else if c == "old" then client_error else key "k";
  decode = λ token k audience issuer leeway.
      if token == "late" then expired_signature else claims payload;
}

abbrev fresh_verifier : JwtVerifier String
fresh_verifier = record {
  issuer_url = "https://issuer";
  audience = "collectmind-tenant";
  jwks_cache_ttl = 300;
  clock_skew = 60;
  jwks_uri = none;
  jwks_client = none;
}

abbrev rotated_verifier : JwtVerifier String
rotated_verifier = record fresh_verifier { jwks_uri = some "new"; jwks_client = some "old" }

abbrev cached_verifier : JwtVerifier String
cached_verifier = record fresh_verifier { jwks_uri = some "new"; jwks_client = some "new" }

abbrev acme : Principal
acme = record {
  tenant_id = "acme";
  subject = "svc";
  scopes = codes "a" ∷ codes "b" ∷ [];
  token_id = "";
}

accepted : (verify an_issuer "t" fresh_verifier).0 ≡ inr acme
unfolding verify verify_token client resolve_jwks_uri signing_key_or_refresh decode_with
    principal_of get words
accepted = refl

verified_only_if_Trusted_example : Trusted an_issuer fresh_verifier "t" acme
verified_only_if_Trusted_example =
    verified_only_if_Trusted an_issuer fresh_verifier "t" acme accepted

verify_rotated_lem_example :
    verify an_issuer "t" rotated_verifier
    ≡ (answer (claims payload), refreshed an_issuer rotated_verifier "new")
verify_rotated_lem_example = verify_rotated_lem an_issuer rotated_verifier "t" "k" (record {
  some_token = λ h. absurd (ground (arith, (eq_iff "t" "").1 h));
  stale = "old";
  is_stale = refl;
  no_key = refl;
  uri = "new";
  is_uri = refl;
  has_key = refl;
})

-- A scope that is a number has no `split`.
scope_escapes :
    answer (
      claims (field "tenant_id" (str "acme") (field "sub" (str "svc") (field "scope" (int 3) end))))
    ≡ inl (foreign attribute_error)
unfolding get
scope_escapes = refl
