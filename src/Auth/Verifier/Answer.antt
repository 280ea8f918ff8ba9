-- ===== src/Auth/Verifier/Answer.antt =====
-- What JWTVerifier.verify answers to a token whose key is at hand.
use snts_collectmind.Prelude.{
  false, Option, none, some, List, [], String, if◌then◌else◌, ◌==◌, ◌⊎◌, inl, inr, ◌≡◌, ◌≢◌, refl,
  ap, ◌∙◌, arith, Bool-cases, eq_iff, codes, Text,
}
use snts_collectmind.Prelude.Json.{Json, null, bool, int, number, arr, obj, str, Fields, get}
use snts_collectmind.Errors.{
  CollectMindError, auth_invalid_token, auth_expired, auth_tenant_missing,
}
use snts_collectmind.Auth.Verifier.{
  Principal, Raised, typed, foreign, key, Decoded, claims, expired_signature, listed_error,
  other_invalid, JwtLibrary, JwtVerifier, M, client, principal_of, verify_token, verify, words,
  token_id_of, truthy, attribute_error, text_claim, scopes_of, with_scopes, with_subject, finish,
  or_new_client, claims_of, ◌>>=◌,
}

not_empty : (token : String) → token ≢ "" → (token == "") ≡ false
not_empty token h = elim (Bool-cases (token == "")) [
  | inl q ↦ absurd (h ((eq_iff token "").0 q))
  | inr q ↦ q
]

-- The text of a claim, if it is a string with something in it.
abbrev pub text_of : Option Json → Option String
text_of (some (str s)) = if s == "" then none else some s
text_of _ = none

-- The words of the scope: none where it has no `split`.
abbrev pub scope_words : Option Json → Option (List Text)
scope_words none = some []
scope_words (some (str s)) = some (words (codes s))
scope_words (some v) = if truthy v then none else some []

abbrev pub with_words : String → String → Option Json → Option (List Text) → Raised ⊎ Principal
with_words tenant_id subject jti none = inl (foreign attribute_error)
with_words tenant_id subject jti (some scopes) = inr (record {
  tenant_id = tenant_id;
  subject = subject;
  scopes = scopes;
  token_id = token_id_of jti;
})

abbrev pub with_text : String → Option String → Fields → Raised ⊎ Principal
with_text tenant_id none payload = inl (typed auth_invalid_token)
with_text tenant_id (some subject) payload =
    with_words tenant_id subject (get "jti" payload) (scope_words (get "scope" payload))

abbrev pub from_claims : Option String → Fields → Raised ⊎ Principal
from_claims none payload = inl (typed auth_tenant_missing)
from_claims (some tenant_id) payload = with_text tenant_id (text_of (get "sub" payload)) payload

-- What is answered to a token that decodes so.
abbrev pub answer : Decoded → Raised ⊎ Principal
answer expired_signature = inl (typed auth_expired)
answer listed_error = inl (typed auth_invalid_token)
answer other_invalid = inl (typed auth_invalid_token)
answer (claims payload) = from_claims (text_of (get "tenant_id" payload)) payload

module _ {K C : Type 0} (lib : JwtLibrary K C) where
  pub verify-token_eq :
      (v : JwtVerifier C) (token : String)
      → token ≢ ""
      → verify lib token v ≡ verify_token lib token v
  unfolding verify
  verify-token_eq v token h = rw (not_empty token h)

  -- The client is at hand, and has the key of the token.
  pub record HasCachedKey (v : JwtVerifier C) (token : String) (k : K) : Type 0 where
    pub some_token : token ≢ ""
    pub cached : C
    pub is_cached : v.jwks_client ≡ some cached
    pub has_key : lib.signing_key cached token ≡ key k

  pub client_cached :
      (v : JwtVerifier C) (c : C) → v.jwks_client ≡ some c → client lib v ≡ (inr c, v)
  unfolding client
  client_cached v c h = ap (λ o. or_new_client lib o v) h

  abbrev pub bound :
      {A B : Type 0} → (A → M lib B) → (Raised ⊎ A) × JwtVerifier C → (Raised ⊎ B) × JwtVerifier C
  bound f r = elim r.0 [ inl e ↦ (inl e, r.1) | inr a ↦ f a r.1 ]

  pub bind-eq :
      {A B : Type 0} (m : M lib A) (f : A → M lib B) (v : JwtVerifier C)
      (r : (Raised ⊎ A) × JwtVerifier C)
      → m v ≡ r
      → ◌>>=◌ lib m f v ≡ bound f r
  bind-eq m f v r h = ap (λ x. bound f x) h

  abbrev texted : CollectMindError → Option String → Raised ⊎ String
  texted e none = inl (typed e)
  texted e (some s) = inr s

  text_claim-text :
      (e : CollectMindError) (o : Option Json) (v : JwtVerifier C)
      → text_claim lib e o v ≡ (texted e (text_of o), v)
  text_claim-text e none v = refl
  text_claim-text e (some (str s)) v = ground arith
  text_claim-text e (some null) v = refl
  text_claim-text e (some (bool b)) v = refl
  text_claim-text e (some (int n)) v = refl
  text_claim-text e (some (number n)) v = refl
  text_claim-text e (some (arr xs)) v = refl
  text_claim-text e (some (obj d)) v = refl

  scopes_of-answer :
      (tenant_id subject : String) (payload : Fields) (o : Option Json) (v : JwtVerifier C)
      → ◌>>=◌ lib (scopes_of lib o) (finish lib payload tenant_id subject) v
        ≡ (with_words tenant_id subject (get "jti" payload) (scope_words o), v)
  scopes_of-answer t s payload none v = refl
  scopes_of-answer t s payload (some (str w)) v = refl
  scopes_of-answer t s payload (some null) v = refl
  scopes_of-answer t s payload (some (bool b)) v = ground arith
  scopes_of-answer t s payload (some (int n)) v = ground arith
  scopes_of-answer t s payload (some (number n)) v = ground arith
  scopes_of-answer t s payload (some (arr xs)) v = ground arith
  scopes_of-answer t s payload (some (obj d)) v = ground arith

  subject-answer :
      (tenant_id : String) (payload : Fields) (o : Option String) (v : JwtVerifier C)
      → bound (with_scopes lib payload tenant_id) (texted auth_invalid_token o, v)
        ≡ (with_text tenant_id o payload, v)
  subject-answer t payload none v = refl
  subject-answer t payload (some s) v = scopes_of-answer t s payload (get "scope" payload) v

  tenant-answer :
      (payload : Fields) (o : Option String) (v : JwtVerifier C)
      → bound (with_subject lib payload) (texted auth_tenant_missing o, v)
        ≡ (from_claims o payload, v)
  tenant-answer payload none v = refl
  tenant-answer payload (some t) v =
      bind-eq (text_claim lib auth_invalid_token (get "sub" payload)) (with_scopes lib payload t) v
        _ (text_claim-text auth_invalid_token (get "sub" payload) v)
      ∙ subject-answer t payload (text_of (get "sub" payload)) v

  -- What the library decodes decides the answer, and the verifier stays as it is.
  pub read-answer :
      (d : Decoded) (v : JwtVerifier C)
      → ◌>>=◌ lib (claims_of lib d) (principal_of lib) v ≡ (answer d, v)
  unfolding principal_of
  read-answer expired_signature v = refl
  read-answer listed_error v = refl
  read-answer other_invalid v = refl
  read-answer (claims payload) v =
      bind-eq (text_claim lib auth_tenant_missing (get "tenant_id" payload))
        (with_subject lib payload) v _
        (text_claim-text auth_tenant_missing (get "tenant_id" payload) v)
      ∙ tenant-answer payload (text_of (get "tenant_id" payload)) v
