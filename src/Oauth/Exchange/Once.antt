-- ===== src/Oauth/Exchange/Once.antt =====
-- token_handler.go: who gets a token, and how often.
use postbrain.Prelude.{
  ℕ, String, string_eq, nat_eq, ◌≡◌, ◌≢◌, sym, ap, subst, ◌∙◌, true, Option, none, some, ltb,
  Result, ok, err, get?, arith,
}
use postbrain.Prelude.Stateful.{then_do-ok}
use postbrain.Oauth.{AuthCode, OauthClient, Db, Error, consume, issue}
use postbrain.Oauth.Codes.{IsUsed, consume-Consumed, Consumed-IsUsed}
use postbrain.Oauth.Exchange.{
  TokenRequest, TokenResponse, Refusal, refusal, known_client, authenticate, check_form, check,
  or_refuse, refuse_code, issue_token, handle_token, join_scopes,
}
use postbrain.Oauth.Exchange.Laws.{
  IsClient, Proves, known_client-IsClient, or_refuse-ok, authenticate-Proves,
}
use postbrain.Oauth.Exchange.Preserving.{
  Preserves-or_refuse, Preserves-issue_token, Preserves-handle_token, IsUsed-issue,
}

-- What happens to the tables: a request at the token endpoint, answered in whatever way, or a new code.
pub data Step (sha256_hex s256 : String → String) : Db → Db → Type 0 where
  exchanging :
      (db_now now ttl new_id : ℕ) (generated : String × String) (req : TokenRequest) (d : Db)
      → Step sha256_hex s256 d
          (handle_token sha256_hex s256 db_now now ttl new_id generated req d).1
  issuing :
      (raw : String) (code : AuthCode) (d : Db)
      → Step sha256_hex s256 d (issue sha256_hex s256 raw code d).1

pub data Reach (sha256_hex s256 : String → String) : Db → Db → Type 0 where
  stay : (d : Db) → Reach sha256_hex s256 d d
  more :
      {d d2 d3 : Db}
      → Step sha256_hex s256 d d2
      → Reach sha256_hex s256 d2 d3
      → Reach sha256_hex s256 d d3

abbrev refuse_issue : Error → Refusal
refuse_issue e = refusal 500 "server_error"

module _ (sha256_hex s256 : String → String) where
  IsUsed-Step : (h : String) {d d2 : Db} → Step sha256_hex s256 d d2 → IsUsed h d → IsUsed h d2
  IsUsed-Step h (exchanging db_now now ttl new_id generated req d) =
      Preserves-handle_token sha256_hex s256 h db_now now ttl new_id generated req d
  IsUsed-Step h (issuing raw code d) = IsUsed-issue sha256_hex s256 h raw code d

  IsUsed-Reach : (h : String) {d d2 : Db} → Reach sha256_hex s256 d d2 → IsUsed h d → IsUsed h d2
  IsUsed-Reach h (stay d) u = u
  IsUsed-Reach h (more step rest) u = IsUsed-Reach h rest (IsUsed-Step h step u)

  -- The steps of a request that is given a token.
  handle_token-parts :
      (db_now now ttl new_id : ℕ) (generated : String × String) (req : TokenRequest) (d d2 : Db)
      (resp : TokenResponse)
      → handle_token sha256_hex s256 db_now now ttl new_id generated req d ≡ (ok resp, d2)
      → (client : OauthClient) × (code : AuthCode) × (s1 : Db) × (s2 : Db) × (raw : String)
        × (known_client req.client_id d ≡ (ok client, s1))
        × (or_refuse refuse_code (consume sha256_hex s256 db_now now req.code) s1 ≡ (ok code, s2))
        × (authenticate sha256_hex s256 req client code ≡ ok tt)
        × (or_refuse refuse_issue
              (issue_token db_now now ttl new_id generated code.principal_id code.scopes)
              s2
            ≡ (ok raw, d2))
        × (resp.scope ≡ join_scopes code.scopes)
  unfolding handle_token
  handle_token-parts db_now now ttl new_id generated req d d2 resp h =
      let (u, s0, e0, h0) = then_do-ok (check (check_form req) d) _ h in
      let (client, s1, e1, h1) = then_do-ok (known_client req.client_id s0) _ h0 in
      let (code, s2, e2, h2) =
        then_do-ok (or_refuse refuse_code (consume sha256_hex s256 db_now now req.code) s1) _ h1 in
      let (v, s3, e3, h3) =
        then_do-ok (check (authenticate sha256_hex s256 req client code) s2) _ h2 in
      let issued =
        or_refuse refuse_issue
          (issue_token db_now now ttl new_id generated code.principal_id code.scopes) in
      let (raw, s4, e4, h4) = then_do-ok (issued s3) _ h3 in
      let start : s0 ≡ d = ap (λ (r : Result Refusal (Unit {0}) × Db). r.1) (sym e0) in
      let checked : s3 ≡ s2 = ap (λ (r : Result Refusal (Unit {0}) × Db). r.1) (sym e3) in
      let end : s4 ≡ d2 = ap (λ (r : Result Refusal TokenResponse × Db). r.1) h4 in
      (
        client,
        code,
        s1,
        s2,
        raw,
        subst (λ s. known_client req.client_id s ≡ (ok client, s1)) start e1,
        e2,
        ap (λ (r : Result Refusal (Unit {0}) × Db). r.0) e3,
        subst (λ s. issued s2 ≡ (ok raw, s)) end (subst (λ s. issued s ≡ (ok raw, s4)) checked e4),
        sym (
            ap
              (λ (r : Result Refusal TokenResponse × Db). elim (r.0) as (λ _. String) [
                | ok a ↦ a.scope
                | err e ↦ ""
              ])
              h4),
      )

  -- A token is given only to a client that is registered and not revoked, for a code of the table that
  -- was issued to this client and for this redirect URI, was unused and not expired; a public client has
  -- given the verifier of the code's challenge, any other client its secret; the answer's scope is that
  -- of the code, and afterwards the code is used.
  pub handle_token-Authorized :
      (db_now now ttl new_id : ℕ) (generated : String × String) (req : TokenRequest) (d d2 : Db)
      (resp : TokenResponse)
      → handle_token sha256_hex s256 db_now now ttl new_id generated req d ≡ (ok resp, d2)
      → (client : OauthClient) × (code : AuthCode) × IsClient req.client_id client d
        × (get? (sha256_hex req.code) d.codes ≡ some code)
        × (code.used_at ≡ none)
        × (ltb db_now code.expires_at ≡ true)
        × (code.redirect_uri ≡ req.redirect_uri)
        × (code.client_id ≡ client.id)
        × Proves sha256_hex s256 req client code
        × (resp.scope ≡ join_scopes code.scopes)
        × IsUsed (sha256_hex req.code) d2
  unfolding or_refuse
  handle_token-Authorized db_now now ttl new_id generated req d d2 resp h =
      let hash = sha256_hex req.code in
      let (client, code, s1, s2, raw, e1, e2, passed, e4, scope) =
        handle_token-parts db_now now ttl new_id generated req d d2 resp h in
      let issued = issue_token db_now now ttl new_id generated code.principal_id code.scopes in
      let (its, same_codes) = known_client-IsClient req.client_id client d s1 e1 in
      let consumed =
        consume-Consumed sha256_hex s256 db_now now req.code code s1 s2
          (or_refuse-ok refuse_code (consume sha256_hex s256 db_now now req.code s1) code s2 e2) in
      let (old, found, unused, live, same, codes) = consumed in
      let (uri, owner, proof) = authenticate-Proves sha256_hex s256 req client code passed in
      let used_after =
        Preserves-or_refuse hash refuse_issue issued
          (Preserves-issue_token hash db_now now ttl new_id generated code.principal_id code.scopes)
          s2 (Consumed-IsUsed db_now hash code s1 s2 consumed) in
      (
        client,
        old,
        its,
        ap (λ l. get? hash l) (sym same_codes) ∙ found,
        unused,
        live,
        subst (λ (c : AuthCode). c.redirect_uri ≡ req.redirect_uri) same uri,
        subst (λ (c : AuthCode). c.client_id ≡ client.id) same owner,
        subst (λ (c : AuthCode). Proves sha256_hex s256 req client c) same proof,
        scope ∙ ap (λ (c : AuthCode). join_scopes c.scopes) same,
        subst (λ (r : Result Refusal String × Db). IsUsed hash r.1) e4 used_after,
      )

  -- A code yields one token at most: after a request at the token endpoint that was given a token, no
  -- later request with the same code is given one, whatever other requests and new codes come between.
  pub handle_token-once :
      (db_now now ttl new_id : ℕ) (generated : String × String) (req : TokenRequest) (d d2 d3 : Db)
      (resp : TokenResponse)
      → handle_token sha256_hex s256 db_now now ttl new_id generated req d ≡ (ok resp, d2)
      → Reach sha256_hex s256 d2 d3
      → (db_now2 now2 ttl2 new_id2 : ℕ) (generated2 : String × String) (again : TokenRequest)
        (resp2 : TokenResponse) (d4 : Db)
      → again.code ≡ req.code
      → handle_token sha256_hex s256 db_now2 now2 ttl2 new_id2 generated2 again d3 ≢ (ok resp2, d4)
  handle_token-once db_now now ttl new_id generated req d d2 d3 resp h r db_now2 now2 ttl2 new_id2
        generated2 again resp2 d4 same k =
      let first = handle_token-Authorized db_now now ttl new_id generated req d d2 resp h in
      let (c, t, found, used) = IsUsed-Reach (sha256_hex req.code) r (first.10) in
      let (client, old, its, at, unused, live, uri, owner, proof, scope, after) =
        handle_token-Authorized db_now2 now2 ttl2 new_id2 generated2 again d3 d4 resp2 k in
      let twice : ◌≡◌ {A = Option AuthCode} (some c) (some old) =
        sym found ∙ ap (λ j. get? (sha256_hex j) d3.codes) (sym same) ∙ at in
      ground (arith, twice, used, unused)
