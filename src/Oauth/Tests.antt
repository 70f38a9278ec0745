-- ===== src/Oauth/Tests.antt =====
-- The theorems on internal/oauth at concrete inputs; the digests are the identity here.
use postbrain.Prelude.{
  String, string_eq, nat_eq, ◌≡◌, ◌≢◌, refl, ltb, true, [], ◌∷◌, none, some, get?, ok,
}
use postbrain.Oauth.{
  AuthCode, OauthClient, Db, query, is_set, consume_row, consume_code, or_explain, consume,
  verify_pkce, verify_s256,
}
use postbrain.Oauth.Codes.{IsUsed}
use postbrain.Oauth.Exchange.{
  TokenRequest, TokenResponse, handle_token, join_scopes, check_form, first_row, is_client,
  lookup_client, known_client, or_refuse, authenticate, check_verifier, check_secret, issue_token,
  revoke_by_principal_and_name, list_tokens_by_principal, revoke_each, create_token,
  scope_to_permissions,
}
use postbrain.Oauth.Exchange.Laws.{IsClient, Proves}
use postbrain.Oauth.Exchange.Once.{stay, handle_token-Authorized, handle_token-once}

abbrev digest : String → String
digest s = s

abbrev desktop : OauthClient
desktop = record {
  id = 3;
  client_id = "app";
  client_secret_hash = none;
  redirect_uris = "http://localhost" ∷ [];
  is_public = true;
  revoked_at = none;
}

abbrev code : AuthCode
code = record {
  client_id = 3;
  principal_id = 7;
  redirect_uri = "http://localhost";
  scopes = "memories:read" ∷ [];
  code_challenge = "proof";
  expires_at = 50;
  used_at = none;
}

abbrev db : Db
db = record {
  codes = ("c0de", code) ∷ [];
  states = [];
  clients = desktop ∷ [];
  tokens = [];
  outages = [];
}

abbrev request : TokenRequest
request = record {
  form_parses = true;
  grant_type = "authorization_code";
  code = "c0de";
  client_id = "app";
  redirect_uri = "http://localhost";
  code_verifier = "proof";
  client_secret = "";
}

abbrev response : TokenResponse
response = record { access_token = "raw"; expires_in = 0; scope = "memories:read" }

abbrev after : Db
after = (handle_token digest digest 20 20 0 1 ("raw", "hash") request db).1

exchanged : handle_token digest digest 20 20 0 1 ("raw", "hash") request db ≡ (ok response, after)
unfolding handle_token check_form known_client lookup_client first_row is_client is_set query
    or_refuse consume consume_code consume_row or_explain authenticate check_verifier check_secret
    verify_pkce verify_s256 issue_token revoke_by_principal_and_name list_tokens_by_principal
    revoke_each create_token scope_to_permissions join_scopes
exchanged = refl

handle_token-Authorized_example :
    (client : OauthClient) × (code : AuthCode) × IsClient "app" client db
    × (get? "c0de" db.codes ≡ some code)
    × (code.used_at ≡ none)
    × (ltb 20 code.expires_at ≡ true)
    × (code.redirect_uri ≡ "http://localhost")
    × (code.client_id ≡ client.id)
    × Proves digest digest request client code
    × ("memories:read" ≡ join_scopes code.scopes)
    × IsUsed "c0de" after
handle_token-Authorized_example =
    handle_token-Authorized digest digest 20 20 0 1 ("raw", "hash") request db after response
      exchanged

handle_token-once_example :
    handle_token digest digest 30 30 0 2 ("raw2", "hash2") request after ≢ (ok response, after)
handle_token-once_example =
    handle_token-once digest digest 20 20 0 1 ("raw", "hash") request db after after response
      exchanged (stay after) 30 30 0 2 ("raw2", "hash2") request response after refl
