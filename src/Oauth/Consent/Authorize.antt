-- ===== src/Oauth/Consent/Authorize.antt =====
-- authorize_handler.go and the tables of states and codes: what a call that succeeds has done.
use postbrain.Prelude.{
  ℕ, ◌+◌, String, string_eq, nat_eq, ◌≡◌, refl, sym, ap, subst, ◌∙◌, inl, inr, true, false,
  Bool-cases, Option-cases, List, [], ◌∷◌, Option, none, some, ◌==◌, eq_of_beq, Result, ok, get?,
  elem, elem_iff, In, All, arith,
}
use postbrain.Prelude.Stateful.{then_do-ok}
use postbrain.Authz.Permissions.{all_permissions}
use postbrain.Oauth.{ConsentPayload, OauthState, OauthClient, Db}
use postbrain.Oauth.Exchange.{Refusal, lookup_client, or_refuse, check}
use postbrain.Oauth.Exchange.Laws.{IsClient, lookup_client-IsClient, or_refuse-ok}
use postbrain.Oauth.Consent.Queries.{
  answer_of, issue_state-ok, FirstClient, lookup_client-FirstClient,
}
use postbrain.Oauth.Consent.{
  check_scopes, parse_scopes, words, issue_state, AuthorizeRequest, check_query, check_client,
  refuse_client, server_error, handle_authorize,
}

-- Every scope is a valid permission.
abbrev pub AllKnown : List String → Type 0
AllKnown scopes = All (λ s. elem s all_permissions ≡ true) scopes

check_scopes-AllKnown :
    (scopes : List String) {out : List String}
    → check_scopes scopes ≡ some out
    → (out ≡ scopes) × AllKnown out
unfolding check_scopes
check_scopes-AllKnown [] {out} h =
    let e : ◌≡◌ {A = List String} [] out = ground arith in (sym e, subst AllKnown e tt)
check_scopes-AllKnown (s ∷ scopes) {out} h = elim (Bool-cases (elem s all_permissions)) [
  | inr unknown ↦ absurd (ground (arith, unknown))
  | inl known ↦ elim (Option-cases (check_scopes scopes)) [
    | inl refused ↦ absurd (ground (arith, known, refused))
    | inr (rest, found) ↦
        let e : ◌≡◌ {A = List String} (s ∷ rest) out = ground (arith, known, found) in
        let (same, others) = check_scopes-AllKnown scopes found in
        (sym e ∙ ap (λ l. s ∷ l) same, subst AllKnown e (known, others))
  ]
]

from_words-AllKnown :
    (ws : List String) {out : List String}
    → ◌≡◌ {A = Option (List String)}
        (elim ws as (λ _. Option (List String)) [ [] ↦ none | w ∷ rest ↦ check_scopes (w ∷ rest) ])
        (some out)
    → (out ≡ ws) × AllKnown out
from_words-AllKnown [] h = absurd (ground arith)
from_words-AllKnown (w ∷ ws) h = check_scopes-AllKnown (w ∷ ws) h

parse_scopes-AllKnown :
    (raw : String) {out : List String}
    → parse_scopes raw ≡ some out
    → (out ≡ words raw) × AllKnown out
unfolding parse_scopes
parse_scopes-AllKnown raw h = from_words-AllKnown (words raw) h

check_query-AllKnown :
    (q : AuthorizeRequest) {scopes : List String}
    → check_query q ≡ ok scopes
    → (scopes ≡ words q.scope) × AllKnown scopes
unfolding check_query
check_query-AllKnown q {scopes} h = elim (Option-cases (parse_scopes q.scope)) [
  | inl refused ↦ absurd (ground (arith, refused))
  | inr (out, found) ↦
      let same : ◌≡◌ {A = List String} out scopes = ground (arith, found) in
      subst (λ l. (l ≡ words q.scope) × AllKnown l) same (parse_scopes-AllKnown q.scope found)
]

-- A public client has given a challenge, by SHA-256.
abbrev pub HasChallenge : AuthorizeRequest → OauthClient → Type 0
HasChallenge q client =
    client.is_public ≡ true
    → ((q.code_challenge == "") ≡ false) × (q.code_challenge_method ≡ "S256")

check_client-ok :
    (q : AuthorizeRequest) (client : OauthClient)
    → check_client q client ≡ ok tt
    → In q.redirect_uri client.redirect_uris × HasChallenge q client
unfolding check_client
check_client-ok q client h = elim (Bool-cases (elem q.redirect_uri client.redirect_uris)) [
  | inr unregistered ↦ absurd (ground (arith, unregistered))
  | inl registered ↦ (
    (elem_iff q.redirect_uri client.redirect_uris).0 registered,
    λ open_client. elim (Bool-cases (q.code_challenge == "")) [
      | inl missing ↦ absurd (ground (arith, registered, open_client, missing))
      | inr given ↦ elim (Bool-cases (q.code_challenge_method == "S256")) [
        | inl s256 ↦ (given, eq_of_beq q.code_challenge_method "S256" s256)
        | inr other ↦ absurd (ground (arith, registered, open_client, given, other))
      ]
    ],
  )
]

abbrev pub payload_of : OauthState → Option OauthState → ConsentPayload
payload_of s none = s.payload
payload_of s (some t) = t.payload

-- What an authorization request keeps for the consent.
abbrev pub kept_payload : AuthorizeRequest → List String → ConsentPayload
kept_payload q scopes = record {
  client_id = q.client_id;
  redirect_uri = q.redirect_uri;
  scopes = scopes;
  code_challenge = q.code_challenge;
  original_state = q.state;
}

pub handle_authorize-ok :
    (sha256_hex : String → String) (now ttl : ℕ) (raw_state : String) (q : AuthorizeRequest)
    (d d2 : Db) (raw : String)
    → handle_authorize sha256_hex now ttl raw_state q d ≡ (ok raw, d2)
    → (client : OauthClient) × (scopes : List String) × (state : OauthState) × IsClient q.client_id
        client d
      × In q.redirect_uri client.redirect_uris
      × HasChallenge q client
      × (scopes ≡ words q.scope)
      × AllKnown scopes
      × FirstClient q.client_id client d2.clients
      × (raw ≡ raw_state)
      × (get? (sha256_hex raw_state) d2.states ≡ some state)
      × (state.payload ≡ kept_payload q scopes)
unfolding handle_authorize
handle_authorize-ok sha256_hex now ttl raw_state q d d2 raw h =
    let (scopes, s0, e0, h0) = then_do-ok (check_query q, d) _ h in
    let (client, s1, e1, h1) =
      then_do-ok (or_refuse refuse_client (lookup_client q.client_id) s0) _ h0 in
    let (u, s2, e2, h2) = then_do-ok (check (check_client q client) s1) _ h1 in
    let state : OauthState = record {
      kind = "mcp_consent";
      payload = kept_payload q scopes;
      expires_at = now + ttl;
      used_at = none;
    } in
    let (v, s3, e3, h3) =
      then_do-ok (or_refuse server_error (issue_state (sha256_hex raw_state) state) s2) _ h2 in
    let start : s0 ≡ d = ap (λ (r : Result Refusal (List String) × Db). r.1) (sym e0) in
    let vetted : check_query q ≡ ok scopes =
      ap (λ (r : Result Refusal (List String) × Db). r.0) e0 in
    let passed : check_client q client ≡ ok tt =
      ap (λ (r : Result Refusal (Unit {0}) × Db). r.0) e2 in
    let (uri, challenge) = check_client-ok q client passed in
    let (its, codes) =
      lookup_client-IsClient q.client_id client s0 s1
        (or_refuse-ok refuse_client (lookup_client q.client_id s0) client s1 e1) in
    let (first, kept1) =
      lookup_client-FirstClient q.client_id client s0 s1
        (or_refuse-ok refuse_client (lookup_client q.client_id s0) client s1 e1) in
    let kept2 : s2 ≡ s1 = ap (λ (r : Result Refusal (Unit {0}) × Db). r.1) (sym e2) in
    let (stored, kept3) =
      issue_state-ok (sha256_hex raw_state) state s2 s3
        (or_refuse-ok server_error (issue_state (sha256_hex raw_state) state s2) v s3 e3) in
    let end : s3 ≡ d2 = ap (λ (r : Result Refusal String × Db). r.1) h3 in
    let (asked, known) = check_query-AllKnown q vetted in
    (
      client,
      scopes,
      state,
      subst (λ s. IsClient q.client_id client s) start its,
      uri,
      challenge,
      asked,
      known,
      subst (λ rows. FirstClient q.client_id client rows)
          (sym (
            ap (λ (s : Db). s.clients) (sym end)
            ∙ (kept3 ∙ (ap (λ (s : Db). s.clients) kept2 ∙ kept1))))
          first,
      sym (ap (λ (r : Result Refusal String × Db). answer_of raw_state r.0) h3),
      subst (λ (s : Db). get? (sha256_hex raw_state) s.states ≡ some state) end stored,
      refl,
    )
