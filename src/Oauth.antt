-- ===== src/Oauth.antt =====
-- internal/oauth: authorization codes (codes.go), PKCE (pkce.go), the exchange of a code for a token
-- (token_handler.go, token_exchange.go) and the tables behind them (oauth_codes.sql.go, oauth_clients.sql.go,
-- tokens.sql.go, auth/tokens.go). Two digests are parameters: `sha256_hex`, the hexadecimal SHA-256 of a
-- text, and `s256`, its base64url SHA-256. Random values, the ids that the database draws and the times
-- are arguments. A column that nothing here reads is left out.
pub mod Codes
pub mod Exchange
pub mod Consent
mod Tests
use postbrain.Prelude.{
  ℕ, String, string_eq, nat_eq, Bool, true, false, ◌&&◌, ◌||◌, negb, List, [], ◌∷◌, map, Option,
  none, some, ltb, ◌==◌, if◌then◌else◌, Result, ok, err, get?, modify,
}
use postbrain.Prelude.Stateful.{M, ◌>>=◌, ◌>>◌, return, throw}

pub record AuthCode : Type 0 where
  pub client_id : ℕ
  pub principal_id : ℕ
  pub redirect_uri : String
  pub scopes : List String
  pub code_challenge : String
  pub expires_at : ℕ
  pub used_at : Option ℕ

pub record OauthClient : Type 0 where
  pub id : ℕ
  pub client_id : String
  pub client_secret_hash : Option String
  pub redirect_uris : List String
  pub is_public : Bool
  pub revoked_at : Option ℕ

pub record Token : Type 0 where
  pub id : ℕ
  pub principal_id : ℕ
  pub token_hash : String
  pub name : String
  pub scope_ids : Option (List ℕ)
  pub permissions : List String
  pub expires_at : Option ℕ
  pub revoked_at : Option ℕ

-- The payload of a state of kind `mcp_consent`, which the table keeps as JSON.
pub record ConsentPayload : Type 0 where
  pub client_id : String
  pub redirect_uri : String
  pub scopes : List String
  pub code_challenge : String
  pub original_state : String

pub record OauthState : Type 0 where
  pub kind : String
  pub payload : ConsentPayload
  pub expires_at : ℕ
  pub used_at : Option ℕ

-- The codes and the states stand under their hashes, which are UNIQUE.
pub record Db : Type 0 where
  pub codes : List (String × AuthCode)
  pub states : List (String × OauthState)
  pub clients : List OauthClient
  pub tokens : List Token
  pub outages : List Bool

pub data Error : Type 0 where
  no_rows unique_violation : Error
  code_not_found code_used code_expired : Error
  pkce_mismatch missing_challenge : Error
  failed : Error

-- Whether the next query fails; with no entry left, none does.
unfoldable pub query {ℓ} : {A : Type ℓ} → (Db → Result Error A × Db) → M Db Error A
query run d = elim (d.outages) [
  | [] ↦ run d
  | true ∷ rest ↦ (err failed, record d { outages = rest })
  | false ∷ rest ↦ run (record d { outages = rest })
]

unfoldable pub is_set : Option ℕ → Bool
is_set none = false
is_set (some t) = true

-- `IssueCode`
unfoldable pub issue_code_row : String → AuthCode → Db → Result Error (Unit {0}) × Db
issue_code_row code_hash code d = elim (get? code_hash d.codes) [
  | some c ↦ (err unique_violation, d)
  | none ↦ (ok tt, record d { codes = (code_hash, record code { used_at = none }) ∷ d.codes })
]

unfoldable pub issue_code : String → AuthCode → M Db Error (Unit {0})
unfolding query issue_code_row
issue_code code_hash code = query (issue_code_row code_hash code)

-- The update of an unused code that is not expired.
unfoldable pub consume_row : ℕ → String → Db → Result Error AuthCode × Db
unfolding is_set
consume_row db_now code_hash d = elim (get? code_hash d.codes) [
  | none ↦ (err no_rows, d)
  | some c ↦
      if negb (is_set c.used_at) && ltb db_now c.expires_at
      then (
        ok (record c { used_at = some db_now }),
        record d {
          codes = modify code_hash (λ (c : AuthCode). record c { used_at = some db_now }) d.codes;
        },
      )
      else (err no_rows, d)
]

-- `ConsumeCode`: one statement.
unfoldable pub consume_code : ℕ → String → M Db Error AuthCode
unfolding query consume_row
consume_code db_now code_hash = query (consume_row db_now code_hash)

-- `GetCodeByHash`
unfoldable pub get_code_by_hash : String → M Db Error AuthCode
unfolding query
get_code_by_hash code_hash =
    query λ d. elim (get? code_hash d.codes) [ none ↦ (err no_rows, d) | some c ↦ (ok c, d) ]

-- The look-up that explains why nothing was consumed, by the clock of the process.
unfoldable pub explain : ℕ → Result Error AuthCode → Error
unfolding is_set
explain now (err no_rows) = code_not_found
explain now (err e) = e
explain now (ok c) =
    if is_set c.used_at
    then code_used
    else if negb (ltb now c.expires_at)
    then code_expired
    else code_not_found

module _ (sha256_hex s256 : String → String) where
  -- `CodeStore.Issue`, with the raw code that was drawn and the time plus the ttl.
  unfoldable pub issue : String → AuthCode → M Db Error String
  unfolding issue_code
  issue raw_code code = do issue_code (sha256_hex raw_code) code; return raw_code

  -- What `Consume` does with the answer of the update.
  unfoldable pub or_explain : ℕ → String → Result Error AuthCode → M Db Error AuthCode
  unfolding explain get_code_by_hash
  or_explain now raw_code (ok c) d = (ok c, d)
  or_explain now raw_code (err no_rows) d =
      let (found, d) = get_code_by_hash (sha256_hex raw_code) d in (err (explain now found), d)
  or_explain now raw_code (err e) d = (err e, d)

  -- `CodeStore.Consume`
  unfoldable pub consume : ℕ → ℕ → String → M Db Error AuthCode
  unfolding consume_code or_explain
  consume db_now now raw_code d =
      let (answer, d) = consume_code db_now (sha256_hex raw_code) d in
      or_explain now raw_code answer d

  -- `VerifyS256`; the comparison of bytes in constant time is equality.
  unfoldable pub verify_s256 : String → String → Bool
  verify_s256 verifier challenge =
      if verifier == "" || challenge == "" then false else s256 verifier == challenge

  -- `CodeStore.VerifyPKCE`
  unfoldable pub verify_pkce : AuthCode → String → Result Error (Unit {0})
  unfolding verify_s256
  verify_pkce code verifier =
      if code.code_challenge == ""
      then err missing_challenge
      else if verify_s256 verifier code.code_challenge
      then ok tt
      else err pkce_mismatch
