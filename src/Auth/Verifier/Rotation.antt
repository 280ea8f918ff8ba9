-- ===== src/Auth/Verifier/Rotation.antt =====
-- How JWTVerifier.verify follows a rotation of the keys, and what escapes it.
use snts_collectmind.Prelude.{none, some, String, inl, inr, ◌≡◌, ◌≢◌, ap, ◌∙◌}
use snts_collectmind.Auth.Verifier.{
  foreign, decode_error, key, client_error, undecodable, JwtLibrary, JwtVerifier, client,
  refresh_jwks, signing_key_or_refresh, first_key, decode_with, verify_token, verify, or_discover,
  key_for, read_token, resolve_jwks_uri, new_client, second_key,
}
use snts_collectmind.Auth.Verifier.Answer.{
  answer, bind-eq, verify-token_eq, client_cached, read-answer,
}

module _ {K C : Type 0} (lib : JwtLibrary K C) where
  -- The client at hand does not know the key of the token, and one made anew for the address does.
  pub record IsRotated (v : JwtVerifier C) (token : String) (k : K) : Type 0 where
    pub some_token : token ≢ ""
    pub stale : C
    pub is_stale : v.jwks_client ≡ some stale
    pub no_key : lib.signing_key stale token ≡ client_error
    pub uri : String
    pub is_uri : v.jwks_uri ≡ some uri
    pub has_key : lib.signing_key (lib.make_client uri v.jwks_cache_ttl) token ≡ key k

  abbrev pub refreshed : JwtVerifier C → String → JwtVerifier C
  refreshed v uri = record v { jwks_client = some (lib.make_client uri v.jwks_cache_ttl) }

  refresh_jwks-eq :
      (v : JwtVerifier C) (uri : String)
      → v.jwks_uri ≡ some uri
      → refresh_jwks lib v ≡ (inr (lib.make_client uri v.jwks_cache_ttl), refreshed v uri)
  unfolding refresh_jwks client resolve_jwks_uri
  refresh_jwks-eq v uri e =
      bind-eq lib (resolve_jwks_uri lib) (new_client lib) (record v { jwks_client = none })
        (inr uri, record v { jwks_client = none })
        (ap (λ o. or_discover lib o (record v { jwks_client = none })) e)

  rotated-key_for :
      (v : JwtVerifier C) (token : String) (k : K) (r : IsRotated v token k)
      → key_for lib token v ≡ (inr k, refreshed v r.uri)
  unfolding signing_key_or_refresh
  rotated-key_for v token k r =
      bind-eq lib (client lib) (λ c. signing_key_or_refresh lib c token) v (inr r.stale, v)
        (client_cached lib v r.stale r.is_stale)
      ∙ ap (λ a. first_key lib token a v) r.no_key
      ∙ bind-eq lib (refresh_jwks lib) (λ c. second_key lib (lib.signing_key c token)) v _
          (refresh_jwks-eq v r.uri r.is_uri)
      ∙ ap (λ a. second_key lib a (refreshed v r.uri)) r.has_key

  -- After a rotation of the keys, a token signed with a new one is answered by its decoding all the
  -- same, and the new client is kept.
  pub verify_rotated_lem :
      (v : JwtVerifier C) (token : String) (k : K) (r : IsRotated v token k)
      → verify lib token v
        ≡ (answer (lib.decode token k v.audience v.issuer_url v.clock_skew), refreshed v r.uri)
  unfolding verify_token decode_with
  verify_rotated_lem v token k r =
      verify-token_eq lib v token r.some_token
      ∙ bind-eq lib (key_for lib token) (read_token lib token) v _ (rotated-key_for v token k r)
      ∙ read-answer lib (lib.decode token k v.audience v.issuer_url v.clock_skew)
          (refreshed v r.uri)

  -- A token whose header the library cannot read raises the library's own error, which is none of
  -- the typed ones, and changes nothing.
  pub undecodable_escapes :
      (v : JwtVerifier C) (token : String) (c : C)
      → token ≢ ""
      → v.jwks_client ≡ some c
      → lib.signing_key c token ≡ undecodable
      → verify lib token v ≡ (inl (foreign decode_error), v)
  unfolding verify_token signing_key_or_refresh
  undecodable_escapes v token c h e u =
      verify-token_eq lib v token h
      ∙ bind-eq lib (key_for lib token) (read_token lib token) v (inl (foreign decode_error), v)
          (bind-eq lib (client lib) (λ c. signing_key_or_refresh lib c token) v (inr c, v)
              (client_cached lib v c e)
            ∙ ap (λ a. first_key lib token a v) u)
