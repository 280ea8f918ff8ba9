-- ===== src/Auth/Verifier/Keys.antt =====
-- Where JWTVerifier takes its keys from: the address and the client that are cached, or new ones.
use Prim.Native.String.{◌++◌ as ◌<>◌}
use snts_collectmind.Prelude.{
  Option, none, some, String, ◌==◌, ◌⊎◌, inl, inr, ◌≡◌, refl, sym, ap, ◌∙◌, arith, Bool-cases,
}
use snts_collectmind.Prelude.Json.{Json, null, bool, int, number, arr, str, obj, Fields, get}
use snts_collectmind.Auth.Verifier.{
  Raised, KeyAnswer, key, client_error, undecodable, JwtLibrary, JwtVerifier, store_uri,
  read_metadata, resolve_jwks_uri, new_client, or_discover, or_new_client, client, refresh_jwks,
  second_key, first_key, signing_key_or_refresh, key_for,
}

module _ {K C : Type 0} (lib : JwtLibrary K C) where
  -- The settings of the verifier, which no call changes.
  abbrev pub SameSettings : JwtVerifier C → JwtVerifier C → Type 0
  SameSettings v w =
      (w.audience ≡ v.audience)
      × (w.issuer_url ≡ v.issuer_url)
      × (w.clock_skew ≡ v.clock_skew)
      × (w.jwks_cache_ttl ≡ v.jwks_cache_ttl)

  -- The address is the cached one, or the one that the discovery document of the issuer names.
  abbrev pub UriOf : JwtVerifier C → String → Type 0
  UriOf v uri =
      (v.jwks_uri ≡ some uri)
      ⊎ ((metadata : Fields) × (v.jwks_uri ≡ none)
          × (lib.discover (v.issuer_url <> "/.well-known/openid-configuration")
              ≡ some (obj metadata))
          × (get "jwks_uri" metadata ≡ some (str uri)))

  -- The client is the cached one, or a new one for the address.
  abbrev pub ClientOf : JwtVerifier C → C → Type 0
  ClientOf v c =
      (v.jwks_client ≡ some c)
      ⊎ ((uri : String) × UriOf v uri × (c ≡ lib.make_client uri v.jwks_cache_ttl))

  -- What `resolve_jwks_uri` leaves.
  record Resolved (v : JwtVerifier C) (r : (Raised ⊎ String) × JwtVerifier C) : Type 0 where
    same : SameSettings v r.1
    client : r.1.jwks_client ≡ v.jwks_client
    uri : (u : String) → r.0 ≡ inr u → UriOf v u
    cached : (u : String) → r.1.jwks_uri ≡ some u → UriOf v u
    none_before : r.1.jwks_uri ≡ none → v.jwks_uri ≡ none

  failed-Resolved : (e : Raised) (v : JwtVerifier C) → v.jwks_uri ≡ none → Resolved v (inl e, v)
  failed-Resolved e v q = record {
    same = (refl, refl, refl, refl);
    client = refl;
    uri = λ u h. absurd (ground (arith, h));
    cached = λ u h. inl h;
    none_before = λ h. h;
  }

  found-Resolved :
      (v : JwtVerifier C) (uri : String)
      → UriOf v uri
      → Resolved v (inr uri, record v { jwks_uri = some uri })
  found-Resolved v uri q = record {
    same = (refl, refl, refl, refl);
    client = refl;
    uri = λ u h. let e : uri ≡ u = ground (arith, h) in rw (sym e) q;
    cached = λ u h. let e : uri ≡ u = ground (arith, h) in rw (sym e) q;
    none_before = λ h. absurd (ground (arith, h));
  }

  store_uri-Resolved :
      (o : Option Json) (metadata : Fields) (v : JwtVerifier C)
      → v.jwks_uri ≡ none
      → lib.discover (v.issuer_url <> "/.well-known/openid-configuration") ≡ some (obj metadata)
      → get "jwks_uri" metadata ≡ o
      → Resolved v (store_uri lib o v)
  store_uri-Resolved (some (str uri)) metadata v e d g = elim (Bool-cases (uri == "")) [
    | inl q ↦ rw q (failed-Resolved _ v e)
    | inr q ↦ rw q (found-Resolved v uri (inr (metadata, e, d, g)))
  ]
  store_uri-Resolved none metadata v e d g = failed-Resolved _ v e
  store_uri-Resolved (some null) metadata v e d g = failed-Resolved _ v e
  store_uri-Resolved (some (bool b)) metadata v e d g = failed-Resolved _ v e
  store_uri-Resolved (some (int n)) metadata v e d g = failed-Resolved _ v e
  store_uri-Resolved (some (number n)) metadata v e d g = failed-Resolved _ v e
  store_uri-Resolved (some (arr xs)) metadata v e d g = failed-Resolved _ v e
  store_uri-Resolved (some (obj o)) metadata v e d g = failed-Resolved _ v e

  read_metadata-Resolved :
      (o : Option Json) (v : JwtVerifier C)
      → v.jwks_uri ≡ none
      → lib.discover (v.issuer_url <> "/.well-known/openid-configuration") ≡ o
      → Resolved v (read_metadata lib o v)
  read_metadata-Resolved (some (obj metadata)) v e d =
      store_uri-Resolved (get "jwks_uri" metadata) metadata v e d refl
  read_metadata-Resolved none v e d = failed-Resolved _ v e
  read_metadata-Resolved (some null) v e d = failed-Resolved _ v e
  read_metadata-Resolved (some (bool b)) v e d = failed-Resolved _ v e
  read_metadata-Resolved (some (int n)) v e d = failed-Resolved _ v e
  read_metadata-Resolved (some (number n)) v e d = failed-Resolved _ v e
  read_metadata-Resolved (some (arr xs)) v e d = failed-Resolved _ v e
  read_metadata-Resolved (some (str s)) v e d = failed-Resolved _ v e

  or_discover-Resolved :
      (o : Option String) (v : JwtVerifier C) → v.jwks_uri ≡ o → Resolved v (or_discover lib o v)
  or_discover-Resolved none v e = read_metadata-Resolved _ v e refl
  or_discover-Resolved (some uri) v e = record {
    same = (refl, refl, refl, refl);
    client = refl;
    uri = λ u h. inl (e ∙ ground (arith, h));
    cached = λ u h. inl h;
    none_before = λ h. h;
  }

  resolve_jwks_uri-Resolved : (v : JwtVerifier C) → Resolved v (resolve_jwks_uri lib v)
  unfolding resolve_jwks_uri
  resolve_jwks_uri-Resolved v = or_discover-Resolved v.jwks_uri v refl

  -- What `client` leaves.
  record HasClient (v : JwtVerifier C) (r : (Raised ⊎ C) × JwtVerifier C) : Type 0 where
    same : SameSettings v r.1
    made : (c : C) → r.0 ≡ inr c → ClientOf v c
    cached : (u : String) → r.1.jwks_uri ≡ some u → UriOf v u
    none_before : r.1.jwks_uri ≡ none → v.jwks_uri ≡ none

  -- A client is made once the address is there.
  new_client-HasClient :
      (v : JwtVerifier C) (r : (Raised ⊎ String) × JwtVerifier C)
      → Resolved v r
      → HasClient v (elim r.0 [ inl e ↦ (inl e, r.1) | inr uri ↦ new_client lib uri r.1 ])
  new_client-HasClient v (inl e, w) h = record {
    same = h.same;
    made = λ c q. absurd (ground (arith, q));
    cached = h.cached;
    none_before = h.none_before;
  }
  new_client-HasClient v (inr uri, w) h = record {
    same = h.same;
    made = λ c q.
        let e : lib.make_client uri w.jwks_cache_ttl ≡ c = ground (arith, q) in
        inr (uri, h.uri uri refl, rw (sym e) (ap (λ t. lib.make_client uri t) h.same.3));
    cached = h.cached;
    none_before = h.none_before;
  }

  or_new_client-HasClient :
      (o : Option C) (v : JwtVerifier C) → v.jwks_client ≡ o → HasClient v (or_new_client lib o v)
  or_new_client-HasClient none v e =
      new_client-HasClient v (resolve_jwks_uri lib v) (resolve_jwks_uri-Resolved v)
  or_new_client-HasClient (some c) v e = record {
    same = (refl, refl, refl, refl);
    made = λ d q. inl (e ∙ ground (arith, q));
    cached = λ u h. inl h;
    none_before = λ h. h;
  }

  client-HasClient : (v : JwtVerifier C) → HasClient v (client lib v)
  unfolding client
  client-HasClient v = or_new_client-HasClient v.jwks_client v refl

  -- Where the keys come from: the client at hand, or one made anew for the address of the issuer.
  abbrev pub KeyFrom : JwtVerifier C → String → K → Type 0
  KeyFrom v token k = (c : C) × ClientOf v c × (lib.signing_key c token ≡ key k)

  -- An address of the verifier that `client` leaves is one of the verifier before.
  UriOf-client :
      (v w : JwtVerifier C) (u : String)
      → SameSettings v w
      → ((u : String) → w.jwks_uri ≡ some u → UriOf v u)
      → (w.jwks_uri ≡ none → v.jwks_uri ≡ none)
      → UriOf w u
      → UriOf v u
  UriOf-client v w u same cached none_before (inl q) = cached u q
  UriOf-client v w u same cached none_before (inr (d, q, f, g)) = inr (
    d,
    none_before q,
    ap (λ t. lib.discover (t <> "/.well-known/openid-configuration")) (sym same.1) ∙ f,
    g,
  )

  -- What the search for a key leaves.
  pub record HasKey (v : JwtVerifier C) (token : String) (r : (Raised ⊎ K) × JwtVerifier C)
      : Type 0 where
    pub same : SameSettings v r.1
    pub from : (k : K) → r.0 ≡ inr k → KeyFrom v token k

  SameSettings-trans :
      (u v w : JwtVerifier C) → SameSettings u v → SameSettings v w → SameSettings u w
  SameSettings-trans u v w p q = (q.0 ∙ p.0, q.1 ∙ p.1, q.2 ∙ p.2, q.3 ∙ p.3)

  second_key-HasKey :
      (a : KeyAnswer K) (v w : JwtVerifier C) (token : String) (c : C)
      → SameSettings v w
      → ClientOf v c
      → lib.signing_key c token ≡ a
      → HasKey v token (second_key lib a w)
  second_key-HasKey (key k) v w token c same of e = record {
    same = same;
    from = λ j q. (c, of, e ∙ ap key (ground (arith, q)));
  }
  second_key-HasKey client_error v w token c same of e = record {
    same = same;
    from = λ j q. absurd (ground (arith, q));
  }
  second_key-HasKey undecodable v w token c same of e = record {
    same = same;
    from = λ j q. absurd (ground (arith, q));
  }

  -- The client that a refresh makes, for the verifier before the first client was asked for.
  refreshed-ClientOf :
      (v w : JwtVerifier C) (c d : C)
      → HasClient v (inr c, w)
      → ClientOf (record w { jwks_client = none }) d
      → ClientOf v d
  refreshed-ClientOf v w c d h (inl q) = absurd (ground (arith, q))
  refreshed-ClientOf v w c d h (inr (uri, of, e)) = inr (
    uri,
    UriOf-client v (record w { jwks_client = none }) uri h.same h.cached h.none_before of,
    e ∙ ap (λ t. lib.make_client uri t) h.same.3,
  )

  refreshed-HasKey :
      (v w : JwtVerifier C) (c : C) (token : String) (r : (Raised ⊎ C) × JwtVerifier C)
      → HasClient v (inr c, w)
      → HasClient (record w { jwks_client = none }) r
      → HasKey v token
          (elim r.0 [ inl e ↦ (inl e, r.1) | inr d ↦ second_key lib (lib.signing_key d token) r.1 ])
  refreshed-HasKey v w c token (inl e, u) h k = record {
    same = SameSettings-trans v w u h.same k.same;
    from = λ j q. absurd (ground (arith, q));
  }
  refreshed-HasKey v w c token (inr d, u) h k =
      second_key-HasKey (lib.signing_key d token) v u token d
        (SameSettings-trans v w u h.same k.same) (refreshed-ClientOf v w c d h (k.made d refl)) refl

  first_key-HasKey :
      (a : KeyAnswer K) (v w : JwtVerifier C) (token : String) (c : C)
      → HasClient v (inr c, w)
      → lib.signing_key c token ≡ a
      → HasKey v token (first_key lib token a w)
  unfolding refresh_jwks
  first_key-HasKey (key k) v w token c h e = record {
    same = h.same;
    from = λ j q. (c, h.made c refl, e ∙ ap key (ground (arith, q)));
  }
  first_key-HasKey client_error v w token c h e =
      refreshed-HasKey v w c token _ h (client-HasClient (record w { jwks_client = none }))
  first_key-HasKey undecodable v w token c h e = record {
    same = h.same;
    from = λ j q. absurd (ground (arith, q));
  }

  -- The key of a token, from the start.
  found_key-HasKey :
      (v : JwtVerifier C) (token : String) (r : (Raised ⊎ C) × JwtVerifier C)
      → HasClient v r
      → HasKey v token
          (elim r.0 [ inl e ↦ (inl e, r.1) | inr c ↦ signing_key_or_refresh lib c token r.1 ])
  unfolding signing_key_or_refresh
  found_key-HasKey v token (inl e, w) h = record {
    same = h.same;
    from = λ j q. absurd (ground (arith, q));
  }
  found_key-HasKey v token (inr c, w) h =
      first_key-HasKey (lib.signing_key c token) v w token c h refl

  pub key_for-HasKey : (v : JwtVerifier C) (token : String) → HasKey v token (key_for lib token v)
  key_for-HasKey v token = found_key-HasKey v token (client lib v) (client-HasClient v)
