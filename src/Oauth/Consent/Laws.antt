-- ===== src/Oauth/Consent/Laws.antt =====
-- authorize_handler.go and oauth_consent.go: the code that a consent issues is for what was asked.
use postbrain.Prelude.{
  ℕ, ◌+◌, String, string_eq, nat_eq, ◌≡◌, sym, ap, subst, ◌∙◌, Option, some, ok, get?, In,
}
use postbrain.Oauth.{ConsentPayload, OauthState, OauthClient, Db}
use postbrain.Oauth.Exchange.Laws.{IsClient}
use postbrain.Oauth.Consent.{
  words, AuthorizeRequest, handle_authorize, ConsentPost, granted, handle_consent_post,
}
use postbrain.Oauth.Consent.Queries.{FirstClient, FirstClient-unique}
use postbrain.Oauth.Consent.Authorize.{
  AllKnown, HasChallenge, payload_of, kept_payload, handle_authorize-ok,
}
use postbrain.Oauth.Consent.Issuing.{Issued, handle_consent_post-ok}

-- A code that a consent issues on the state of an authorization request, with the tables in between
-- unchanged, is for what was asked: the client of the request is registered and not revoked, and the
-- redirect, which is the one of the request, is registered for it; a public client has given a
-- challenge; the code that is sent back is stored, unused, until the time to live has passed, for this
-- client, the principal that consents, this redirect, the challenge of the request, and the words of the
-- scope of the request, which are valid permissions; and the client's state comes back.
pub handle_authorize-consent_post :
    (sha256_hex s256 : String → String) (now ttl : ℕ) (raw_state : String) (q : AuthorizeRequest)
    (d d2 : Db) (raw : String)
    → handle_authorize sha256_hex now ttl raw_state q d ≡ (ok raw, d2)
    → (db_now now2 ttl2 : ℕ) (raw_code : String) (r : ConsentPost) (d3 : Db)
      (uri code_sent original_state : String)
    → r.state ≡ raw
    → handle_consent_post sha256_hex s256 db_now now2 ttl2 raw_code r d2
      ≡ (ok (granted uri code_sent original_state), d3)
    → (client : OauthClient) × IsClient q.client_id client d
      × In q.redirect_uri client.redirect_uris
      × HasChallenge q client
      × AllKnown (words q.scope)
      × (code_sent ≡ raw_code)
      × Issued
          (sha256_hex raw_code)
          (kept_payload q (words q.scope))
          client.id
          r.principal_id
          (now2 + ttl2)
          uri
          original_state
          d3
handle_authorize-consent_post sha256_hex s256 now ttl raw_state q d d2 raw h db_now now2 ttl2
      raw_code r d3 uri code_sent original_state same k =
    let (
      client, scopes, state, its, registered, challenge, asked, known, first, raw_same, stored,
      kept,
    ) =
      handle_authorize-ok sha256_hex now ttl raw_state q d d2 raw h in
    let (old, found, unused, (client2, first2, sent, issued)) =
      handle_consent_post-ok sha256_hex s256 db_now now2 ttl2 raw_code r d2 d3 uri code_sent
        original_state k in
    let there : get? (sha256_hex r.state) d2.states ≡ some state =
      ap (λ j. get? (sha256_hex j) d2.states) (same ∙ raw_same) ∙ stored in
    let both : ◌≡◌ {A = Option OauthState} (some old) (some state) = sym found ∙ there in
    let payload : old.payload ≡ kept_payload q scopes =
      ap (λ (s : Option OauthState). payload_of old s) both ∙ kept in
    let named : old.payload.client_id ≡ q.client_id =
      ap (λ (p : ConsentPayload). p.client_id) payload in
    let one : client2 ≡ client =
      FirstClient-unique q.client_id client client2 d2.clients first
        (subst (λ j. FirstClient j client2 d2.clients) named first2) in
    (
      client,
      its,
      registered,
      challenge,
      subst AllKnown asked known,
      sent,
      subst
          (λ (p : ConsentPayload × ℕ).
            Issued (sha256_hex raw_code) p.0 p.1 r.principal_id (now2 + ttl2) uri original_state d3)
          (ap (λ (p : ConsentPayload). (p, client2.id)) (payload ∙ ap (kept_payload q) asked)
            ∙ ap (λ (c : OauthClient). (kept_payload q (words q.scope), c.id)) one)
          issued,
    )
