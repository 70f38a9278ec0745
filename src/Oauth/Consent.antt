-- ===== src/Oauth/Consent.antt =====
-- internal/oauth: scopes.go, states.go and authorize_handler.go, and internal/ui/oauth_consent.go: the
-- authorization request, and the consent that issues a code. The stores are there, the states and codes
-- are drawn, and the URLs of the redirects are left out. Social logins keep their states in the same
-- table with other payloads and are not modelled.
pub mod Authorize
pub mod Issuing
pub mod Queries
pub mod Laws
mod Tests
use Prim.Native.Char.{code}
use Prim.Native.String.{◌++◌ as ◌+++◌}
use postbrain.Prelude.{
  ℕ, zero, suc, ◌+◌, String, string_eq, nat_eq, Bool, true, false, ◌&&◌, ◌||◌, negb, List, [], ◌∷◌,
  Option, none, some, ltb, ◌==◌, if◌then◌else◌, Result, ok, err, elem, get?, modify,
}
use postbrain.Prelude.Stateful.{M, ◌>>=◌, ◌>>◌, return, throw}
use postbrain.Chunking.{is_space}
use postbrain.Authz.Permissions.{all_permissions}
use postbrain.Oauth.{
  AuthCode, ConsentPayload, OauthState, OauthClient, Db, Error, no_rows, unique_violation, query,
  is_set, issue,
}
use postbrain.Oauth.Exchange.{Refusal, refusal, known_client, lookup_client, check, or_refuse}

-- `strings.Fields`; `word` is what was read of the current word.
unfoldable pub words_from : String → String → List String
unfolding is_space
words_from word String.[] = if word == "" then [] else word ∷ []
words_from word (String.◌∷◌ c s) =
    let rest = words_from "" s in
    let longer = words_from (word +++ String.◌∷◌ c "") s in
    if is_space (code c) then if word == "" then rest else word ∷ rest else longer

unfoldable pub words : String → List String
unfolding words_from
words s = words_from "" s

-- The loop of `ParseScopes`.
unfoldable pub check_scopes : List String → Option (List String)
check_scopes [] = some []
check_scopes (scope ∷ scopes) =
    let rest = check_scopes scopes in
    if negb (elem scope all_permissions)
    then none
    else elim rest [ none ↦ none | some out ↦ some (scope ∷ out) ]

-- `ParseScopes`
unfoldable pub parse_scopes : String → Option (List String)
unfolding words check_scopes
parse_scopes raw = elim (words raw) [ [] ↦ none | w ∷ ws ↦ check_scopes (w ∷ ws) ]

-- `IssueState`
unfoldable pub issue_state_row : String → OauthState → Db → Result Error (Unit {0}) × Db
issue_state_row state_hash state d = elim (get? state_hash d.states) [
  | some s ↦ (err unique_violation, d)
  | none ↦ (ok tt, record d { states = (state_hash, record state { used_at = none }) ∷ d.states })
]

unfoldable pub issue_state : String → OauthState → M Db Error (Unit {0})
unfolding query issue_state_row
issue_state state_hash state = query (issue_state_row state_hash state)

-- `ConsumeState`: the update of an unused state that is not expired, as one statement.
unfoldable pub consume_state_row : ℕ → String → Db → Result Error OauthState × Db
unfolding is_set
consume_state_row db_now state_hash d = elim (get? state_hash d.states) [
  | none ↦ (err no_rows, d)
  | some s ↦
      if negb (is_set s.used_at) && ltb db_now s.expires_at
      then (
        ok (record s { used_at = some db_now }),
        record d {
          states =
              modify state_hash (λ (s : OauthState). record s { used_at = some db_now }) d.states;
        },
      )
      else (err no_rows, d)
]

unfoldable pub consume_state : ℕ → String → M Db Error OauthState
unfolding query consume_state_row
consume_state db_now state_hash = query (consume_state_row db_now state_hash)

pub record AuthorizeRequest : Type 0 where
  pub client_id : String
  pub response_type : String
  pub redirect_uri : String
  pub state : String
  pub scope : String
  pub code_challenge : String
  pub code_challenge_method : String

-- The checks of the query before the client is looked up; the scopes come out.
unfoldable pub check_query : AuthorizeRequest → Result Refusal (List String)
unfolding parse_scopes
check_query q =
    if q.client_id == ""
    then err (refusal 400 "invalid_request")
    else if negb (q.response_type == "code")
    then err (refusal 400 "unsupported_response_type")
    else if q.redirect_uri == ""
    then err (refusal 400 "invalid_request")
    else if q.state == ""
    then err (refusal 400 "invalid_request")
    else elim (parse_scopes q.scope) [
      | none ↦ err (refusal 400 "invalid_scope")
      | some scopes ↦ ok scopes
    ]

-- The checks with the client: `ValidateRedirectURI` and the challenge.
unfoldable pub check_client : AuthorizeRequest → OauthClient → Result Refusal (Unit {0})
check_client q client =
    if negb (elem q.redirect_uri client.redirect_uris)
    then err (refusal 400 "invalid_request")
    else if client.is_public && (q.code_challenge == "" || negb (q.code_challenge_method == "S256"))
    then err (refusal 400 "invalid_request")
    else if negb (q.code_challenge_method == "") && negb (q.code_challenge_method == "S256")
    then err (refusal 400 "invalid_request")
    else ok tt

unfoldable pub refuse_client : Error → Refusal
refuse_client e = refusal 400 "invalid_client"

unfoldable pub server_error : Error → Refusal
server_error e = refusal 500 "server_error"

module _ (sha256_hex : String → String) where
  -- `Server.HandleAuthorize`; the answer is the raw state that the redirect to the consent page carries.
  unfoldable pub handle_authorize : ℕ → ℕ → String → AuthorizeRequest → M Db Refusal String
  unfolding check_query check_client or_refuse lookup_client issue_state refuse_client server_error
  handle_authorize now ttl raw_state q = do
    scopes ← λ d. (check_query q, d)
    client ← or_refuse refuse_client (lookup_client q.client_id)
    check (check_client q client)
    or_refuse server_error (
        issue_state (sha256_hex raw_state) (record {
          kind = "mcp_consent";
          payload = record {
            client_id = q.client_id;
            redirect_uri = q.redirect_uri;
            scopes = scopes;
            code_challenge = q.code_challenge;
            original_state = q.state;
          };
          expires_at = now + ttl;
          used_at = none;
        }))
    return raw_state

pub record ConsentPost : Type 0 where
  pub form_parses : Bool
  pub state : String
  pub action : String
  pub principal_id : Option ℕ  -- of the token or the cookie of the request

-- The redirects: with an error, or with the code; both carry the state of the client.
pub data ConsentAnswer : Type 0 where
  denied : String → String → ConsentAnswer
  granted : String → String → String → ConsentAnswer

unfoldable pub check_post : ConsentPost → Result Refusal (Unit {0})
check_post r =
    if negb r.form_parses
    then err (refusal 400 "bad form")
    else if r.state == ""
    then err (refusal 400 "missing oauth state")
    else ok tt

unfoldable pub refuse_state : Error → Refusal
refuse_state no_rows = refusal 400 "invalid oauth state"
refuse_state e = refusal 500 "failed to consume oauth state"

unfoldable pub refuse_consent_client : Error → Refusal
refuse_consent_client e = refusal 400 "invalid oauth client"

unfoldable pub refuse_issue_code : Error → Refusal
refuse_issue_code e = refusal 500 "failed to issue oauth code"

unfoldable pub check_principal : Option ℕ → Result Refusal ℕ
check_principal none = err (refusal 400 "missing principal")
check_principal (some id) = ok id

module _ (sha256_hex s256 : String → String) where
  -- What follows once the state is consumed and the user has approved.
  unfoldable pub approve_consent :
      ℕ → ℕ → String → ConsentPost → ConsentPayload → M Db Refusal ConsentAnswer
  unfolding or_refuse lookup_client check_principal refuse_consent_client refuse_issue_code issue
  approve_consent now ttl raw_code r payload = do
    client ← or_refuse refuse_consent_client (lookup_client payload.client_id)
    principal_id ← λ d. (check_principal r.principal_id, d)
    raw ← or_refuse refuse_issue_code (
        issue sha256_hex s256 raw_code (record {
          client_id = client.id;
          principal_id = principal_id;
          redirect_uri = payload.redirect_uri;
          scopes = payload.scopes;
          code_challenge = payload.code_challenge;
          expires_at = now + ttl;
          used_at = none;
        }))
    return (granted payload.redirect_uri raw payload.original_state)

  -- What follows once the state is consumed.
  unfoldable pub answer_consent :
      ℕ → ℕ → String → ConsentPost → ConsentPayload → M Db Refusal ConsentAnswer
  unfolding approve_consent
  answer_consent now ttl raw_code r payload =
      if negb (r.action == "approve")
      then return (denied payload.redirect_uri payload.original_state)
      else approve_consent now ttl raw_code r payload

  -- `handleConsentPost`
  unfoldable pub handle_consent_post : ℕ → ℕ → ℕ → String → ConsentPost → M Db Refusal ConsentAnswer
  unfolding check_post or_refuse consume_state refuse_state answer_consent
  handle_consent_post db_now now ttl raw_code r = do
    check (check_post r)
    state ← or_refuse refuse_state (consume_state db_now (sha256_hex r.state))
    answer_consent now ttl raw_code r state.payload
