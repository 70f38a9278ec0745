-- ===== src/Oauth/Exchange/Laws.antt =====
-- token_handler.go: what the checks of the token endpoint establish.
use postbrain.Prelude.{
  String, string_eq, nat_eq, ◌≡◌, refl, sym, ap, ◌∙◌, ◌⊎◌, inl, inr, true, false, Bool-cases,
  Option-cases, List, [], ◌∷◌, none, some, ◌==◌, eq_of_beq, Result, ok, err, select, In, In-select,
  arith,
}
use postbrain.Oauth.{AuthCode, OauthClient, Db, Error, failed, is_set, verify_pkce, verify_s256}
use postbrain.Oauth.Codes.{query-cases}
use postbrain.Oauth.Exchange.{
  TokenRequest, Refusal, refusal, first_row, is_client, lookup_client, known_client, authenticate,
  check_secret, check_verifier,
}

-- A client of that id, not revoked.
abbrev pub IsClient : String → OauthClient → Db → Type 0
IsClient client_id c d = In c d.clients × ((c.client_id ≡ client_id) × (c.revoked_at ≡ none))

secret-checked :
    (r : Result Refusal (Unit {0})) (k : Result Refusal (Unit {0}))
    → elim r as (λ _. Result Refusal (Unit {0})) [ err e ↦ err e | ok u ↦ k ] ≡ ok tt
    → r ≡ ok tt
secret-checked (ok u) k h = refl
secret-checked (err e) k h = h

first_row-In : (l : List OauthClient) (c : OauthClient) → first_row l ≡ ok c → In c l
unfolding first_row
first_row-In [] c h = absurd (ground arith)
first_row-In (x ∷ l) c h = inl (ground arith)

is_client-IsClient :
    (client_id : String) (c : OauthClient)
    → is_client client_id c ≡ true
    → (c.client_id ≡ client_id) × (c.revoked_at ≡ none)
unfolding is_client is_set
is_client-IsClient client_id c h = elim (Bool-cases (c.client_id == client_id)) [
  | inl same ↦ elim (Option-cases (c.revoked_at)) [
    | inl live ↦ (eq_of_beq c.client_id client_id same, live)
    | inr (t, revoked) ↦ absurd (ground (arith, same, revoked))
  ]
  | inr other ↦ absurd (ground (arith, other))
]

pub lookup_client-IsClient :
    (client_id : String) (c : OauthClient) (d d2 : Db)
    → lookup_client client_id d ≡ (ok c, d2)
    → IsClient client_id c d × (d2.codes ≡ d.codes)
unfolding lookup_client
lookup_client-IsClient client_id c d d2 h =
    let run : Db → Result Error OauthClient × Db =
      λ d. (first_row (select (is_client client_id) d.clients), d) in
    let (outs, how) = query-cases run d in
    elim how [
      | inl down ↦
          let clash : ◌≡◌ {A = Result Error OauthClient × Db}
              (err failed, record d { outages = outs }) (ok c, d2) =
            sym down ∙ h in
          absurd (ground (arith, clash))
      | inr runs ↦
          let same : ◌≡◌ {A = Result Error OauthClient × Db}
              (first_row (select (is_client client_id) d.clients), record d { outages = outs })
              (ok c, d2) =
            sym runs ∙ h in
          let (at, fits) =
            (In-select (is_client client_id) c d.clients).0
              (first_row-In _ c (ap (λ (r : Result Error OauthClient × Db). r.0) same)) in
          let (its, live) = is_client-IsClient client_id c fits in
          ((at, (its, live)), ap (λ (r : Result Error OauthClient × Db). (r.1).codes) (sym same))
    ]

known_client-ok :
    (r : Result Error OauthClient × Db) (c : OauthClient) (d2 : Db)
    → ◌≡◌ {A = Result Refusal OauthClient × Db}
        (elim (r.0) as (λ _. Result Refusal OauthClient × Db) [
          | ok c ↦ (ok c, r.1)
          | err e ↦ (err (refusal 401 "invalid_client"), r.1)
        ])
        (ok c, d2)
    → r ≡ (ok c, d2)
known_client-ok (ok x, s) c d2 h =
    ap
      (λ (r : Result Refusal OauthClient × Db).
        (elim (r.0) as (λ _. Result Error OauthClient) [ ok y ↦ ok y | err e ↦ err failed ], r.1))
      h
known_client-ok (err e, s) c d2 h = cc

pub or_refuse-ok :
    {A : Type 0} (f : Error → Refusal) (r : Result Error A × Db) (a : A) (d2 : Db)
    → ◌≡◌ {A = Result Refusal A × Db}
        (elim (r.0) as (λ _. Result Refusal A × Db) [
          | ok a ↦ (ok a, r.1)
          | err e ↦ (err (f e), r.1)
        ])
        (ok a, d2)
    → r ≡ (ok a, d2)
or_refuse-ok {A} f (ok x, s) a d2 h =
    ap
      (λ (r : Result Refusal A × Db).
        (elim (r.0) as (λ _. Result Error A) [ ok y ↦ ok y | err e ↦ err failed ], r.1))
      h
or_refuse-ok f (err e, s) a d2 h = cc

pub known_client-IsClient :
    (client_id : String) (c : OauthClient) (d d2 : Db)
    → known_client client_id d ≡ (ok c, d2)
    → IsClient client_id c d × (d2.codes ≡ d.codes)
unfolding known_client
known_client-IsClient client_id c d d2 h =
    lookup_client-IsClient client_id c d d2 (known_client-ok (lookup_client client_id d) c d2 h)

module _ (sha256_hex s256 : String → String) where
  -- What the client proves: a public one the verifier of the challenge, another its secret.
  abbrev pub Proves : TokenRequest → OauthClient → AuthCode → Type 0
  Proves req client code =
      ((client.is_public ≡ true)
        × (s256 req.code_verifier ≡ code.code_challenge)
        × ((code.code_challenge == "") ≡ false))
      ⊎ ((client.is_public ≡ false)
          × (client.client_secret_hash ≡ some (sha256_hex req.client_secret)))

  verify_pkce-ok :
      (code : AuthCode) (verifier : String)
      → check_verifier sha256_hex s256 code verifier ≡ ok tt
      → (s256 verifier ≡ code.code_challenge) × ((code.code_challenge == "") ≡ false)
  unfolding check_verifier verify_pkce verify_s256
  verify_pkce-ok code verifier h = elim (Bool-cases (code.code_challenge == "")) [
    | inl missing ↦ absurd (ground (arith, missing))
    | inr there ↦ elim (Bool-cases (verifier == "")) [
      | inl nothing ↦ absurd (ground (arith, there, nothing))
      | inr given ↦ elim (Bool-cases (s256 verifier == code.code_challenge)) [
        | inl same ↦ (eq_of_beq (s256 verifier) code.code_challenge same, there)
        | inr other ↦ absurd (ground (arith, there, given, other))
      ]
    ]
  ]

  check_secret-ok :
      (client : OauthClient) (secret : String)
      → check_secret sha256_hex s256 client secret ≡ ok tt
      → client.client_secret_hash ≡ some (sha256_hex secret)
  unfolding check_secret
  check_secret-ok client secret h = elim (Bool-cases (secret == "")) [
    | inl nothing ↦ absurd (ground (arith, nothing))
    | inr given ↦ elim (Option-cases (client.client_secret_hash)) [
      | inl no_hash ↦ absurd (ground (arith, given, no_hash))
      | inr (hash, found) ↦ elim (Bool-cases (sha256_hex secret == hash)) [
        | inl same ↦ found ∙ ap (λ s. some s) (sym (eq_of_beq (sha256_hex secret) hash same))
        | inr other ↦ absurd (ground (arith, given, found, other))
      ]
    ]
  ]

  pub authenticate-Proves :
      (req : TokenRequest) (client : OauthClient) (code : AuthCode)
      → authenticate sha256_hex s256 req client code ≡ ok tt
      → (code.redirect_uri ≡ req.redirect_uri)
        × (code.client_id ≡ client.id)
        × Proves req client code
  unfolding authenticate
  authenticate-Proves req client code h =
      elim (Bool-cases (code.redirect_uri == req.redirect_uri)) [
        | inr elsewhere ↦ absurd (ground (arith, elsewhere))
        | inl here ↦ elim (Bool-cases (code.client_id == client.id)) [
          | inr other ↦ absurd (ground (arith, here, other))
          | inl its ↦
              let uri = eq_of_beq code.redirect_uri req.redirect_uri here in
              let owner = eq_of_beq code.client_id client.id its in
              elim (Bool-cases (client.is_public)) [
                | inl open_client ↦
                    let (proof, there) =
                      verify_pkce-ok code req.code_verifier
                        (rw (authenticate, here, its, open_client) at h) in
                    (uri, owner, inl (open_client, proof, there))
                | inr confidential ↦ (
                  uri,
                  owner,
                  inr (
                    confidential,
                    check_secret-ok client req.client_secret (
                        secret-checked (check_secret sha256_hex s256 client req.client_secret) _
                          (rw (authenticate, here, its, confidential) at h)),
                  ),
                )
              ]
        ]
      ]
