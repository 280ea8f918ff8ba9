-- ===== src/Auth/Verifier.antt =====
-- src/collectmind/auth/jwt_verifier.py: JWTVerifier, over PyJWT and httpx, which are parameters.
pub mod Keys
pub mod Trusted
pub mod Answer
pub mod Rotation
use Prim.Native.String.{◌++◌ as ◌<>◌}
use snts_collectmind.Prelude.{
  ℕ, zero, suc, Bool, true, false, not, Option, none, some, List, [], ◌∷◌, String, Text, codes,
  is_space, onto_first, if◌then◌else◌, ◌==◌, ◌⊎◌, inl, inr,
}
use snts_collectmind.Prelude.Json.{
  Json, null, bool, int, str, arr, obj, Items, nil, cons, Fields, end, field, get,
}
use snts_collectmind.Errors.{
  CollectMindError, auth_invalid_token, auth_expired, auth_tenant_missing, dependency_unavailable,
}

pub record Principal : Type 0 where
  pub tenant_id : String
  pub subject : String
  pub scopes : List Text
  pub token_id : String

-- What is raised: a typed error, or an exception that no handler of the verifier catches.
pub data Foreign : Type 0 where
  decode_error attribute_error : Foreign

pub data Raised : Type 0 where
  typed : CollectMindError → Raised
  foreign : Foreign → Raised

-- get_signing_key_from_jwt: the key; a PyJWKClientError; or a DecodeError, since it reads the
-- header of the token first.
pub data KeyAnswer (K : Type 0) : Type 0 where
  key : K → KeyAnswer K
  client_error : KeyAnswer K
  undecodable : KeyAnswer K

-- jwt.decode: the claims, or one of the three groups of errors that the code tells apart.
pub data Decoded : Type 0 where
  claims : Fields → Decoded
  expired_signature : Decoded
  listed_error : Decoded
  other_invalid : Decoded

-- The libraries. The answer of discovery is none where the request or its JSON raises; a client
-- is made for an address and a lifespan in seconds. `decode` is given the token, the key, the
-- audience, the issuer and the leeway, for RS256 with exp, iat, iss, aud and sub required.
pub record JwtLibrary (K C : Type 0) : Type 0 where
  pub discover : String → Option Json
  pub make_client : String → ℕ → C
  pub signing_key : C → String → KeyAnswer K
  pub decode : String → K → String → String → ℕ → Decoded

-- `issuer_url` stands without the slashes at its end.
pub record JwtVerifier (C : Type 0) : Type 0 where
  pub issuer_url : String
  pub audience : String
  pub jwks_cache_ttl : ℕ
  pub clock_skew : ℕ
  pub jwks_uri : Option String
  pub jwks_client : Option C

-- bool(value)
abbrev pub truthy : Json → Bool
truthy null = false
truthy (bool b) = b
truthy (int zero) = false
truthy (int (suc n)) = true
truthy (str s) = not (s == "")
truthy (arr nil) = false
truthy (obj end) = false
truthy _ = true

-- s.split(): the runs of characters that are no white space.
abbrev pub starts_word : Text → Bool
starts_word [] = true
starts_word (c ∷ s) = is_space c

unfoldable pub words : Text → List Text
words [] = []
words (c ∷ s) =
    let rest = words s in
    if is_space c then rest else if starts_word s then (c ∷ []) ∷ rest else onto_first c rest

-- payload.get("jti") if it is a string, else ""
abbrev pub token_id_of : Option Json → String
token_id_of (some (str s)) = s
token_id_of _ = ""

module _ {K C : Type 0} (lib : JwtLibrary K C) where
  -- The state goes through: what is cached before a raise stays cached.
  abbrev pub M : Type 0 → Type 0
  M A = JwtVerifier C → (Raised ⊎ A) × JwtVerifier C

  abbrev pub return : {A : Type 0} → A → M A
  return a v = (inr a, v)

  abbrev pub raise : {A : Type 0} → Raised → M A
  raise e v = (inl e, v)

  infixl 5 ◌>>=◌
  abbrev pub ◌>>=◌ : {A B : Type 0} → M A → (A → M B) → M B
  ◌>>=◌ m f v = let (r, v') = m v in elim r [ inl e ↦ (inl e, v') | inr a ↦ f a v' ]

  -- if not isinstance(jwks_uri, str) or not jwks_uri: raise
  abbrev pub store_uri : Option Json → M String
  store_uri (some (str uri)) v =
      if uri == ""
      then (inl (typed (dependency_unavailable "oauth2_issuer")), v)
      else (inr uri, record v { jwks_uri = some uri })
  store_uri _ v = (inl (typed (dependency_unavailable "oauth2_issuer")), v)

  -- The answer of discovery; a JSON value that is no object has no `get`.
  abbrev pub read_metadata : Option Json → M String
  read_metadata none = raise (typed (dependency_unavailable "oauth2_issuer"))
  read_metadata (some (obj metadata)) = store_uri (get "jwks_uri" metadata)
  read_metadata (some _) = raise (foreign attribute_error)

  -- if self._jwks_uri is not None: return it
  abbrev pub or_discover : Option String → M String
  or_discover (some uri) v = (inr uri, v)
  or_discover none v =
      read_metadata (lib.discover (v.issuer_url <> "/.well-known/openid-configuration")) v

  unfoldable pub resolve_jwks_uri : M String
  unfolding get
  resolve_jwks_uri v = or_discover v.jwks_uri v

  abbrev pub new_client : String → M C
  new_client uri v =
      let c = lib.make_client uri v.jwks_cache_ttl in (inr c, record v { jwks_client = some c })

  abbrev pub or_new_client : Option C → M C
  or_new_client (some c) = return c
  or_new_client none = resolve_jwks_uri >>= new_client

  unfoldable pub client : M C
  unfolding resolve_jwks_uri
  client v = or_new_client v.jwks_client v

  unfoldable pub refresh_jwks : M C
  unfolding client
  refresh_jwks v = client (record v { jwks_client = none })

  -- The second attempt, with the client that is made anew.
  abbrev pub second_key : KeyAnswer K → M K
  second_key (key k) = return k
  second_key client_error = raise (typed auth_invalid_token)
  second_key undecodable = raise (foreign decode_error)

  abbrev pub first_key : String → KeyAnswer K → M K
  first_key token (key k) = return k
  first_key token client_error =
      refresh_jwks >>= λ refreshed. second_key (lib.signing_key refreshed token)
  first_key token undecodable = raise (foreign decode_error)

  unfoldable pub signing_key_or_refresh : C → String → M K
  unfolding refresh_jwks
  signing_key_or_refresh c token = first_key token (lib.signing_key c token)

  -- The three except clauses.
  abbrev pub claims_of : Decoded → M Fields
  claims_of (claims payload) = return payload
  claims_of expired_signature = raise (typed auth_expired)
  claims_of listed_error = raise (typed auth_invalid_token)
  claims_of other_invalid = raise (typed auth_invalid_token)

  -- A claim that has to be a string with something in it.
  abbrev pub text_claim : CollectMindError → Option Json → M String
  text_claim e (some (str s)) = if s == "" then raise (typed e) else return s
  text_claim e _ = raise (typed e)

  -- scope = payload.get("scope") or "": what is true and no string has no `split`.
  abbrev pub scopes_of : Option Json → M (List Text)
  scopes_of none = return []
  scopes_of (some (str s)) = return (words (codes s))
  scopes_of (some v) = if truthy v then raise (foreign attribute_error) else return []

  abbrev pub finish : Fields → String → String → List Text → M Principal
  finish payload tenant_id subject scopes = return (record {
    tenant_id = tenant_id;
    subject = subject;
    scopes = scopes;
    token_id = token_id_of (get "jti" payload);
  })

  abbrev pub with_scopes : Fields → String → String → M Principal
  with_scopes payload tenant_id subject =
      scopes_of (get "scope" payload) >>= finish payload tenant_id subject

  abbrev pub with_subject : Fields → String → M Principal
  with_subject payload tenant_id =
      text_claim auth_invalid_token (get "sub" payload) >>= with_scopes payload tenant_id

  unfoldable pub principal_of : Fields → M Principal
  unfolding get words
  principal_of payload =
      text_claim auth_tenant_missing (get "tenant_id" payload) >>= with_subject payload

  unfoldable pub decode_with : String → K → M Fields
  decode_with token k v = claims_of (lib.decode token k v.audience v.issuer_url v.clock_skew) v

  abbrev pub key_for : String → M K
  key_for token = client >>= λ c. signing_key_or_refresh c token

  abbrev pub read_token : String → K → M Principal
  read_token token k = decode_with token k >>= principal_of

  unfoldable pub verify_token : String → M Principal
  unfolding client signing_key_or_refresh decode_with principal_of
  verify_token token = key_for token >>= read_token token

  unfoldable pub verify : String → M Principal
  unfolding verify_token
  verify token = if token == "" then raise (typed auth_invalid_token) else verify_token token
