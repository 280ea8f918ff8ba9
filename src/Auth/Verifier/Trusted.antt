-- ===== src/Auth/Verifier/Trusted.antt =====
-- What a principal that JWTVerifier.verify returns says of the token.
use snts_collectmind.Prelude.{
  Option, none, some, String, ◌==◌, inl, inr, ◌≡◌, ◌≢◌, refl, sym, ap, ◌∙◌, arith, Bool-cases,
  Sum-cases, eq_iff,
}
use snts_collectmind.Prelude.Json.{Json, null, bool, int, number, arr, obj, str, Fields, get}
use snts_collectmind.Errors.{CollectMindError, auth_invalid_token, auth_tenant_missing}
use snts_collectmind.Auth.Verifier.{
  Principal, Decoded, claims, expired_signature, listed_error, other_invalid, JwtLibrary,
  JwtVerifier, M, claims_of, text_claim, scopes_of, principal_of, decode_with, with_scopes,
  with_subject, key_for, read_token, finish, verify_token, verify, ◌>>=◌,
}
use snts_collectmind.Auth.Verifier.Keys.{SameSettings, KeyFrom, key_for-HasKey}

module _ {K C : Type 0} (lib : JwtLibrary K C) where
  bind-inr :
      {A B : Type 0} (m : M lib A) (f : A → M lib B) (v : JwtVerifier C) (b : B)
      → (◌>>=◌ lib m f v).0 ≡ inr b
      → (a : A) × ((m v).0 ≡ inr a) × ((f a (m v).1).0 ≡ inr b)
  bind-inr m f v b h = elim (Sum-cases (m v).0) [
    | inl (e, q) ↦ absurd (ground arith)
    | inr (a, q) ↦ (a, q, ground arith)
  ]

  -- The claims that a principal is read from.
  pub record ClaimsOf (payload : Fields) (p : Principal) : Type 0 where
    pub tenant : get "tenant_id" payload ≡ some (str p.tenant_id)
    pub some_tenant : p.tenant_id ≢ ""
    pub subject : get "sub" payload ≡ some (str p.subject)
    pub some_subject : p.subject ≢ ""

  text_claim-eq :
      (e : CollectMindError) (o : Option Json) (v : JwtVerifier C) (s : String)
      → (text_claim lib e o v).0 ≡ inr s
      → (o ≡ some (str s)) × (s ≢ "")
  text_claim-eq e (some (str t)) v s h = elim (Bool-cases (t == "")) [
    | inl q ↦ absurd (ground arith)
    | inr q ↦
        let w : t ≡ s = ground arith in (rw w refl, λ z. absurd (ground (arith, eq_iff t "", z)))
  ]
  text_claim-eq e none v s h = absurd (ground arith)
  text_claim-eq e (some null) v s h = absurd (ground arith)
  text_claim-eq e (some (bool b)) v s h = absurd (ground arith)
  text_claim-eq e (some (int n)) v s h = absurd (ground arith)
  text_claim-eq e (some (number n)) v s h = absurd (ground arith)
  text_claim-eq e (some (arr xs)) v s h = absurd (ground arith)
  text_claim-eq e (some (obj d)) v s h = absurd (ground arith)

  -- The last step keeps the two claims, whatever the scopes are.
  with_scopes-eq :
      (payload : Fields) (tenant_id subject : String) (v : JwtVerifier C) (p : Principal)
      → (with_scopes lib payload tenant_id subject v).0 ≡ inr p
      → (p.tenant_id ≡ tenant_id) × (p.subject ≡ subject)
  with_scopes-eq payload tenant_id subject v p h =
      let c =
        bind-inr (scopes_of lib (get "scope" payload)) (finish lib payload tenant_id subject) v p
          h in
      (ground (arith, c.2), ground (arith, c.2))

  principal_of-ClaimsOf :
      (payload : Fields) (v : JwtVerifier C) (p : Principal)
      → (principal_of lib payload v).0 ≡ inr p
      → ClaimsOf payload p
  unfolding principal_of
  principal_of-ClaimsOf payload v p h =
      let t =
        bind-inr (text_claim lib auth_tenant_missing (get "tenant_id" payload))
          (with_subject lib payload) v p h in
      let v1 = (text_claim lib auth_tenant_missing (get "tenant_id" payload) v).1 in
      let v2 = (text_claim lib auth_invalid_token (get "sub" payload) v1).1 in
      let s =
        bind-inr (text_claim lib auth_invalid_token (get "sub" payload))
          (with_scopes lib payload t.0) v1 p t.2 in
      let a = text_claim-eq auth_tenant_missing _ v t.0 t.1 in
      let b = text_claim-eq auth_invalid_token _ v1 s.0 s.1 in
      let r = with_scopes-eq payload t.0 s.0 v2 p s.2 in
      let e = r.0 in
      let f = r.1 in
      record {
        tenant = a.0 ∙ ap (λ x. some (str x)) (sym e);
        some_tenant = λ z. a.1 (sym e ∙ z);
        subject = b.0 ∙ ap (λ x. some (str x)) (sym f);
        some_subject = λ z. b.1 (sym f ∙ z);
      }

  claims_of-claims :
      (d : Decoded) (v : JwtVerifier C) (payload : Fields)
      → (claims_of lib d v).0 ≡ inr payload
      → d ≡ claims payload
  claims_of-claims (claims p) v payload h = ground arith
  claims_of-claims expired_signature v payload h = absurd (ground arith)
  claims_of-claims listed_error v payload h = absurd (ground arith)
  claims_of-claims other_invalid v payload h = absurd (ground arith)

  -- A token that the issuer's keys sign for the audience of the verifier, with claims that name the
  -- tenant and the subject.
  pub record Trusted (v : JwtVerifier C) (token : String) (p : Principal) : Type 0 where
    pub signer : K
    pub payload : Fields
    pub some_token : token ≢ ""
    pub key_from : KeyFrom lib v token signer
    pub decoded : lib.decode token signer v.audience v.issuer_url v.clock_skew ≡ claims payload
    pub claimed : ClaimsOf payload p

  decode_with-decoded :
      (token : String) (k : K) (v w : JwtVerifier C) (payload : Fields)
      → SameSettings lib v w
      → (decode_with lib token k w).0 ≡ inr payload
      → lib.decode token k v.audience v.issuer_url v.clock_skew ≡ claims payload
  unfolding decode_with
  decode_with-decoded token k v w payload same h =
      rw (sym same.0, sym same.1, sym same.2) (claims_of-claims _ w payload h)

  verify_token-Trusted :
      (v : JwtVerifier C) (token : String) (p : Principal)
      → token ≢ ""
      → (verify_token lib token v).0 ≡ inr p
      → Trusted v token p
  unfolding verify_token
  verify_token-Trusted v token p some_token h =
      let k = bind-inr (key_for lib token) (read_token lib token) v p h in
      let w = (key_for lib token v).1 in
      let d = bind-inr (decode_with lib token k.0) (principal_of lib) w p k.2 in
      let had = key_for-HasKey lib v token in
      record {
        signer = k.0;
        payload = d.0;
        some_token = some_token;
        key_from = had.from k.0 k.1;
        decoded = decode_with-decoded token k.0 v w d.0 had.same d.1;
        claimed = principal_of-ClaimsOf d.0 _ p d.2;
      }

  -- A token is accepted only if it is not empty, its key comes from the client at hand or from
  -- the address of the issuer, and the library decodes it with that key for the audience, issuer
  -- and leeway of the verifier, into claims whose tenant and subject are the principal's and not
  -- empty.
  pub verified_only_if_Trusted :
      (v : JwtVerifier C) (token : String) (p : Principal)
      → (verify lib token v).0 ≡ inr p
      → Trusted v token p
  unfolding verify
  verified_only_if_Trusted v token p h = elim (Bool-cases (token == "")) [
    | inl q ↦ absurd (ground arith)
    | inr q ↦
        verify_token-Trusted v token p (λ e. absurd (ground (arith, eq_iff token "", e)))
          (ground arith)
  ]
