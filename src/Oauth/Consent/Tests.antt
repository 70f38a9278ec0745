-- ===== src/Oauth/Consent/Tests.antt =====
-- The theorem on consents at a concrete request; the digests are the identity here.
use postbrain.Prelude.{String, string_eq, nat_eq, ◌≡◌, refl, true, [], ◌∷◌, none, some, In, ok}
use postbrain.Authz.Permissions.{all_permissions, permissions_from, ops_of, ops?, new_permission}
use postbrain.Chunking.{is_space}
use postbrain.Oauth.{OauthClient, Db, query, is_set, issue_code, issue_code_row, issue}
use postbrain.Oauth.Exchange.{lookup_client, first_row, is_client, or_refuse}
use postbrain.Oauth.Exchange.Laws.{IsClient}
use postbrain.Oauth.Consent.{
  words, words_from, check_scopes, parse_scopes, issue_state, issue_state_row, consume_state,
  consume_state_row, AuthorizeRequest, check_query, check_client, handle_authorize, ConsentPost,
  granted, check_post, check_principal, approve_consent, answer_consent, handle_consent_post,
}
use postbrain.Oauth.Consent.Authorize.{HasChallenge, AllKnown, kept_payload}
use postbrain.Oauth.Consent.Issuing.{Issued}
use postbrain.Oauth.Consent.Laws.{handle_authorize-consent_post}

abbrev digest : String → String
digest s = s

abbrev desktop : OauthClient
desktop = record {
  id = 3;
  client_id = "app";
  client_secret_hash = none;
  redirect_uris = "http://localhost" ∷ [];
  is_public = true;
  revoked_at = none;
}

abbrev db : Db
db = record { codes = []; states = []; clients = desktop ∷ []; tokens = []; outages = [] }

abbrev request : AuthorizeRequest
request = record {
  client_id = "app";
  response_type = "code";
  redirect_uri = "http://localhost";
  state = "xyz";
  scope = "graph:read";
  code_challenge = "proof";
  code_challenge_method = "S256";
}

abbrev post : ConsentPost
post = record { form_parses = true; state = "st"; action = "approve"; principal_id = some 7 }

abbrev asked : Db
asked = (handle_authorize digest 10 60 "st" request db).1

abbrev after : Db
after = (handle_consent_post digest digest 20 20 60 "c0de" post asked).1

authorized : handle_authorize digest 10 60 "st" request db ≡ (ok "st", asked)
unfolding handle_authorize check_query parse_scopes words words_from is_space check_scopes
    all_permissions permissions_from ops_of ops? new_permission or_refuse lookup_client first_row
    is_client is_set query check_client issue_state issue_state_row
authorized = refl

consented :
    handle_consent_post digest digest 20 20 60 "c0de" post asked
    ≡ (ok (granted "http://localhost" "c0de" "xyz"), after)
unfolding handle_authorize check_query parse_scopes words words_from is_space check_scopes
    all_permissions permissions_from ops_of ops? new_permission or_refuse lookup_client first_row
    is_client is_set query check_client issue_state issue_state_row handle_consent_post check_post
    consume_state consume_state_row answer_consent approve_consent check_principal issue issue_code
    issue_code_row
consented = refl

handle_authorize-consent_post_example :
    (client : OauthClient) × IsClient "app" client db
    × In "http://localhost" client.redirect_uris
    × HasChallenge request client
    × AllKnown (words "graph:read")
    × (◌≡◌ {A = String} "c0de" "c0de")
    × Issued "c0de"
        (kept_payload request (words "graph:read"))
        client.id
        (some 7)
        80
        "http://localhost"
        "xyz"
        after
handle_authorize-consent_post_example =
    handle_authorize-consent_post digest digest 10 60 "st" request db asked "st" authorized 20 20 60
      "c0de" post after "http://localhost" "c0de" "xyz" refl consented
