-- ===== src/Oauth/Consent/Issuing.antt =====
-- oauth_consent.go: what a consent that is granted has issued.
use postbrain.Prelude.{
  ℕ, ◌+◌, String, string_eq, nat_eq, ◌≡◌, refl, sym, ap, subst, ◌∙◌, inl, inr, Bool, true, false,
  Bool-cases, Option, none, some, ◌==◌, Result, ok, get?, arith,
}
use postbrain.Prelude.Stateful.{then_do-ok}
use postbrain.Oauth.{AuthCode, ConsentPayload, OauthState, OauthClient, Db, issue}
use postbrain.Oauth.Exchange.{Refusal, lookup_client, or_refuse, check}
use postbrain.Oauth.Exchange.Laws.{or_refuse-ok}
use postbrain.Oauth.Consent.{
  consume_state, ConsentPost, ConsentAnswer, denied, granted, check_post, refuse_state,
  refuse_consent_client, refuse_issue_code, check_principal, approve_consent, answer_consent,
  handle_consent_post,
}
use postbrain.Oauth.Consent.Queries.{
  answer_of, consume_state-ok, issue-ok, FirstClient, lookup_client-FirstClient,
}

check_principal-ok : (p : Option ℕ) {id : ℕ} → check_principal p ≡ ok id → p ≡ some id
unfolding check_principal
check_principal-ok none h = absurd (ground arith)
check_principal-ok (some n) h = ap (λ n. some n) (ground arith)

-- The code that an approval issues at a time for a client, and the parts of its answer.
abbrev pub Issued : String → ConsentPayload → ℕ → Option ℕ → ℕ → String → String → Db → Type 0
Issued k payload client_id principal expires_at uri original_state d2 =
    (principal_id : ℕ) × (code : AuthCode) × (principal ≡ some principal_id)
    × (uri ≡ payload.redirect_uri)
    × (original_state ≡ payload.original_state)
    × (get? k d2.codes ≡ some code)
    × (code.client_id ≡ client_id)
    × (code.principal_id ≡ principal_id)
    × (code.redirect_uri ≡ payload.redirect_uri)
    × (code.scopes ≡ payload.scopes)
    × (code.code_challenge ≡ payload.code_challenge)
    × (code.expires_at ≡ expires_at)
    × (code.used_at ≡ none)

abbrev uri_of : ConsentAnswer → String
uri_of (denied uri s) = uri
uri_of (granted uri raw s) = uri

abbrev state_of : ConsentAnswer → String
state_of (denied uri s) = s
state_of (granted uri raw s) = s

abbrev raw_of : ConsentAnswer → String
raw_of (denied uri s) = ""
raw_of (granted uri raw s) = raw

abbrev is_granted : ConsentAnswer → Bool
is_granted (denied uri s) = false
is_granted (granted uri raw s) = true

approve_consent-Issued :
    (sha256_hex s256 : String → String) (now ttl : ℕ) (raw_code : String) (r : ConsentPost)
    (payload : ConsentPayload) (d d2 : Db) (uri raw original_state : String)
    → approve_consent sha256_hex s256 now ttl raw_code r payload d
      ≡ (ok (granted uri raw original_state), d2)
    → (client : OauthClient) × FirstClient payload.client_id client d.clients
      × (raw ≡ raw_code)
      × Issued
          (sha256_hex raw_code)
          payload
          client.id
          r.principal_id
          (now + ttl)
          uri
          original_state
          d2
unfolding approve_consent
approve_consent-Issued sha256_hex s256 now ttl raw_code r payload d d2 uri raw original_state h =
    let k = sha256_hex raw_code in
    let (client, s0, e0, h0) =
      then_do-ok (or_refuse refuse_consent_client (lookup_client payload.client_id) d) _ h in
    let (id, s1, e1, h1) = then_do-ok (check_principal r.principal_id, s0) _ h0 in
    let code : AuthCode = record {
      client_id = client.id;
      principal_id = id;
      redirect_uri = payload.redirect_uri;
      scopes = payload.scopes;
      code_challenge = payload.code_challenge;
      expires_at = now + ttl;
      used_at = none;
    } in
    let issued = issue sha256_hex s256 raw_code code in
    let (drawn, s2, e2, h2) = then_do-ok (or_refuse refuse_issue_code issued s1) _ h1 in
    let (same, stored) =
      issue-ok sha256_hex s256 raw_code code s1 s2 drawn
        (or_refuse-ok refuse_issue_code (issued s1) drawn s2 e2) in
    let answer = ap (λ (r : Result Refusal ConsentAnswer × Db). answer_of (denied "" "") r.0) h2 in
    let end : s2 ≡ d2 = ap (λ (r : Result Refusal ConsentAnswer × Db). r.1) h2 in
    let (first, kept) =
      lookup_client-FirstClient payload.client_id client d s0
        (or_refuse-ok refuse_consent_client (lookup_client payload.client_id d) client s0 e0) in
    (
      client,
      first,
      sym (ap raw_of answer) ∙ same,
      (
        id,
        code,
        check_principal-ok r.principal_id (ap (λ (r : Result Refusal ℕ × Db). r.0) e1),
        sym (ap uri_of answer),
        sym (ap state_of answer),
        subst (λ (s : Db). get? k s.codes ≡ some code) end stored,
        refl,
        refl,
        refl,
        refl,
        refl,
        refl,
        refl,
      ),
    )

answer_consent-Issued :
    (sha256_hex s256 : String → String) (now ttl : ℕ) (raw_code : String) (r : ConsentPost)
    (payload : ConsentPayload) (d d2 : Db) (uri raw original_state : String)
    → answer_consent sha256_hex s256 now ttl raw_code r payload d
      ≡ (ok (granted uri raw original_state), d2)
    → (client : OauthClient) × FirstClient payload.client_id client d.clients
      × (raw ≡ raw_code)
      × Issued
          (sha256_hex raw_code)
          payload
          client.id
          r.principal_id
          (now + ttl)
          uri
          original_state
          d2
unfolding answer_consent
answer_consent-Issued sha256_hex s256 now ttl raw_code r payload d d2 uri raw original_state h =
    elim (Bool-cases (r.action == "approve")) [
      | inr other ↦
          let refused : ◌≡◌ {A = Result Refusal ConsentAnswer × Db}
              (ok (denied payload.redirect_uri payload.original_state), d)
              (ok (granted uri raw original_state), d2) =
            rw (other, answer_consent) at h in
          absurd (
            ground (
              arith,
              ap
                  (λ (r : Result Refusal ConsentAnswer × Db).
                    is_granted (answer_of (denied "" "") r.0))
                  refused,
            ))
      | inl approved ↦
          approve_consent-Issued sha256_hex s256 now ttl raw_code r payload d d2 uri raw
            original_state (rw (approved, answer_consent) at h)
    ]

pub handle_consent_post-ok :
    (sha256_hex s256 : String → String) (db_now now ttl : ℕ) (raw_code : String) (r : ConsentPost)
    (d d2 : Db) (uri raw original_state : String)
    → handle_consent_post sha256_hex s256 db_now now ttl raw_code r d
      ≡ (ok (granted uri raw original_state), d2)
    → (state : OauthState) × (get? (sha256_hex r.state) d.states ≡ some state)
      × (state.used_at ≡ none)
      × ((client : OauthClient) × FirstClient state.payload.client_id client d.clients
          × (raw ≡ raw_code)
          × Issued
              (sha256_hex raw_code)
              state.payload
              client.id
              r.principal_id
              (now + ttl)
              uri
              original_state
              d2)
unfolding handle_consent_post
handle_consent_post-ok sha256_hex s256 db_now now ttl raw_code r d d2 uri raw original_state h =
    let (u, s0, e0, h0) = then_do-ok (check (check_post r) d) _ h in
    let (state, s1, e1, h1) =
      then_do-ok (or_refuse refuse_state (consume_state db_now (sha256_hex r.state)) s0) _ h0 in
    let start : s0 ≡ d = ap (λ (r : Result Refusal (Unit {0}) × Db). r.1) (sym e0) in
    let (old, found, unused, live, same, kept) =
      consume_state-ok db_now (sha256_hex r.state) state s0 s1
        (or_refuse-ok refuse_state (consume_state db_now (sha256_hex r.state) s0) state s1 e1) in
    let (client, first, sent, issued) =
      answer_consent-Issued sha256_hex s256 now ttl raw_code r state.payload s1 d2 uri raw
        original_state h1 in
    (
      old,
      subst (λ (s : Db). get? (sha256_hex r.state) s.states ≡ some old) start found,
      unused,
      subst
          (λ (s : OauthState).
            (client : OauthClient) × FirstClient s.payload.client_id client d.clients
            × (raw ≡ raw_code)
            × Issued (sha256_hex raw_code) s.payload client.id r.principal_id (now + ttl) uri
                original_state d2)
          same
          (
            client,
            subst (λ rows. FirstClient state.payload.client_id client rows)
                (kept ∙ ap (λ (s : Db). s.clients) start) first,
            sent,
            issued,
          ),
    )
