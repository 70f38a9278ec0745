-- ===== src/Oauth/Exchange.antt =====
-- token_handler.go and token_exchange.go: the token endpoint. A refusal is the status and the `error` of
-- the answer. Durations are nanoseconds; a ttl below 0 is 0 here, both mean that tokens do not expire.
pub mod Laws
pub mod Preserving
pub mod Once
use Prim.Native.String.{◌++◌ as ◌+++◌}
use Prim.Native.Nat.{◌/◌}
use postbrain.Prelude.{
  ℕ, zero, suc, ◌+◌, String, string_eq, nat_eq, Bool, true, false, ◌&&◌, ◌||◌, negb, List, [], ◌∷◌,
  map, Option, none, some, ltb, ◌==◌, if◌then◌else◌, Result, ok, err, any, select,
}
use postbrain.Prelude.Stateful.{M, ◌>>=◌, ◌>>◌, return, throw}
use postbrain.Oauth.{
  AuthCode, OauthClient, Token, Db, Error, no_rows, unique_violation, code_not_found, code_used,
  code_expired, query, is_set, consume, verify_pkce,
}

pub record TokenRequest : Type 0 where
  pub form_parses : Bool
  pub grant_type : String
  pub code : String
  pub client_id : String
  pub redirect_uri : String
  pub code_verifier : String
  pub client_secret : String

pub record TokenResponse : Type 0 where
  pub access_token : String
  pub expires_in : ℕ
  pub scope : String

pub data Refusal : Type 0 where
  refusal : ℕ → String → Refusal

-- `:one`: the first row, or no rows.
unfoldable pub first_row : List OauthClient → Result Error OauthClient
first_row [] = err no_rows
first_row (c ∷ cs) = ok c

-- `WHERE client_id = $1 AND revoked_at IS NULL`
unfoldable pub is_client : String → OauthClient → Bool
unfolding is_set
is_client client_id c = c.client_id == client_id && negb (is_set c.revoked_at)

-- `LookupClient`
unfoldable pub lookup_client : String → M Db Error OauthClient
unfolding query is_client first_row
lookup_client client_id = query λ d. (first_row (select (is_client client_id) d.clients), d)

-- `ClientStore.LookupByClientID` and the test of its answer.
unfoldable pub known_client : String → M Db Refusal OauthClient
unfolding lookup_client
known_client client_id d =
    let (found, d) = lookup_client client_id d in
    elim found [ ok c ↦ (ok c, d) | err e ↦ (err (refusal 401 "invalid_client"), d) ]

unfoldable pub list_tokens_by_principal : ℕ → M Db Error (List Token)
unfolding query
list_tokens_by_principal principal_id =
    query λ d. (ok (select (λ (t : Token). t.principal_id == principal_id) d.tokens), d)

unfoldable pub revoke_token : ℕ → ℕ → M Db Error (Unit {0})
unfolding query
revoke_token db_now id = query λ d. (
  ok tt,
  record d {
    tokens =
        map (λ (t : Token). if t.id == id then record t { revoked_at = some db_now } else t)
          d.tokens;
  },
)

-- The loop of `RevokeByPrincipalAndName`.
unfoldable pub revoke_each : ℕ → String → List Token → M Db Error (Unit {0})
unfolding revoke_token is_set
revoke_each db_now name [] = return tt
revoke_each db_now name (t ∷ ts) =
    let rest = revoke_each db_now name ts in
    if negb (t.name == name) || is_set t.revoked_at then rest else revoke_token db_now t.id >> rest

-- `TokenStore.RevokeByPrincipalAndName`
unfoldable pub revoke_by_principal_and_name : ℕ → ℕ → String → M Db Error (Unit {0})
unfolding list_tokens_by_principal revoke_each
revoke_by_principal_and_name db_now principal_id name = do
  tokens ← list_tokens_by_principal principal_id
  revoke_each db_now name tokens

-- `CreateToken`
unfoldable pub create_token : Token → M Db Error (Unit {0})
unfolding query
create_token token = query λ d.
    if any (λ (t : Token). t.token_hash == token.token_hash) d.tokens
    then (err unique_violation, d)
    else (ok tt, record d { tokens = token ∷ d.tokens })

-- `ScopeToPermissions`
unfoldable pub scope_to_permissions : List String → List String
scope_to_permissions scopes = scopes

-- `strings.Join(code.Scopes, " ")`
unfoldable pub join_scopes : List String → String
join_scopes [] = ""
join_scopes (s ∷ []) = s
join_scopes (s ∷ t ∷ ts) = s +++ (" " +++ join_scopes (t ∷ ts))

-- `Issuer.Issue`; `new_id` and the raw token with its hash are drawn.
unfoldable pub issue_token : ℕ → ℕ → ℕ → ℕ → String × String → ℕ → List String → M Db Error String
unfolding revoke_by_principal_and_name create_token scope_to_permissions
issue_token db_now now ttl new_id generated principal_id scopes = do
  revoke_by_principal_and_name db_now principal_id "oauth"
  create_token (record {
    id = new_id;
    principal_id = principal_id;
    token_hash = generated.1;
    name = "oauth";
    scope_ids = none;
    permissions = scope_to_permissions scopes;
    expires_at = if ltb 0 ttl then some (now + ttl) else none;
    revoked_at = none;
  })
  return generated.0

-- The checks of the form.
unfoldable pub check_form : TokenRequest → Result Refusal (Unit {0})
check_form req =
    if negb req.form_parses
    then err (refusal 400 "invalid_request")
    else if negb (req.grant_type == "authorization_code")
    then err (refusal 400 "unsupported_grant_type")
    else if req.code == ""
    then err (refusal 400 "invalid_request")
    else ok tt

-- How a failed `Consume` is answered.
unfoldable pub refuse_code : Error → Refusal
refuse_code code_not_found = refusal 400 "invalid_grant"
refuse_code code_used = refusal 400 "invalid_grant"
refuse_code code_expired = refusal 400 "invalid_grant"
refuse_code e = refusal 500 "server_error"

-- A pure check as a step.
abbrev pub check : Result Refusal (Unit {0}) → M Db Refusal (Unit {0})
check r d = (r, d)

unfoldable pub or_refuse {ℓ} : {A : Type ℓ} → (Error → Refusal) → M Db Error A → M Db Refusal A
or_refuse f m d = let (answer, d) = m d in elim answer [ ok a ↦ (ok a, d) | err e ↦ (err (f e), d) ]

module _ (sha256_hex s256 : String → String) where
  unfoldable pub check_secret : OauthClient → String → Result Refusal (Unit {0})
  check_secret client client_secret =
      if client_secret == ""
      then err (refusal 401 "invalid_client")
      else elim (client.client_secret_hash) [
        | none ↦ err (refusal 401 "invalid_client")
        | some hash ↦
            if sha256_hex client_secret == hash then ok tt else err (refusal 401 "invalid_client")
      ]

  unfoldable pub check_verifier : AuthCode → String → Result Refusal (Unit {0})
  unfolding verify_pkce
  check_verifier code verifier = elim (verify_pkce sha256_hex s256 code verifier) [
    | ok u ↦ ok tt
    | err e ↦ err (refusal 400 "invalid_grant")
  ]

  -- The checks of the client after the code is consumed.
  unfoldable pub authenticate : TokenRequest → OauthClient → AuthCode → Result Refusal (Unit {0})
  unfolding check_secret check_verifier
  authenticate req client code =
      if negb (code.redirect_uri == req.redirect_uri) || negb (code.client_id == client.id)
      then err (refusal 400 "invalid_grant")
      else if client.is_public
      then check_verifier code req.code_verifier
      else elim (check_secret client req.client_secret) [
        | err e ↦ err e
        | ok u ↦
            if negb (req.code_verifier == "") && negb (code.code_challenge == "")
            then check_verifier code req.code_verifier
            else ok tt
      ]

  -- `Server.HandleToken`
  unfoldable pub handle_token :
      ℕ → ℕ → ℕ → ℕ → String × String → TokenRequest → M Db Refusal TokenResponse
  unfolding check_form known_client or_refuse refuse_code authenticate issue_token join_scopes
      consume
  handle_token db_now now ttl new_id generated req = do
    check (check_form req)
    client ← known_client req.client_id
    code ← or_refuse refuse_code (consume sha256_hex s256 db_now now req.code)
    check (authenticate req client code)
    raw_token ←
        or_refuse (λ e. refusal 500 "server_error")
          (issue_token db_now now ttl new_id generated code.principal_id code.scopes)
    return (record {
      access_token = raw_token;
      expires_in = if ltb 0 ttl then ttl / 1000000000 else 0;
      scope = join_scopes code.scopes;
    })
