-- ===== src/Oauth/Consent/Queries.antt =====
-- The queries behind an authorization and a consent: what one that succeeds has found and kept.
use postbrain.Prelude.{
  ℕ, String, string_eq, nat_eq, ◌≡◌, refl, sym, ap, subst, ◌∙◌, inl, inr, Bool, true, false,
  Bool-cases, Option-cases, List, ◌∷◌, none, some, ltb, beq_self, Result, ok, err, get?, select,
  arith,
}
use postbrain.Prelude.Stateful.{then_do-ok}
use postbrain.Oauth.{
  AuthCode, OauthState, OauthClient, Db, Error, failed, query, is_set, issue_code_row, issue_code,
  issue,
}
use postbrain.Oauth.Codes.{query-cases}
use postbrain.Oauth.Exchange.{first_row, is_client, lookup_client}
use postbrain.Oauth.Consent.{issue_state_row, issue_state, consume_state_row, consume_state}

abbrev is_err : {A : Type 0} → Result Error A → Bool
is_err (ok a) = false
is_err (err e) = true

abbrev pub answer_of : {E A : Type 0} → A → Result E A → A
answer_of a (ok b) = b
answer_of a (err e) = a

-- A query that succeeds ran on the same tables.
pub query-ok :
    {A : Type 0} (run : Db → Result Error A × Db) (d d2 : Db) {a : A}
    → query run d ≡ (ok a, d2)
    → (outs : List Bool) × (run (record d { outages = outs }) ≡ (ok a, d2))
query-ok {A} run d d2 {a} h =
    let (outs, how) = query-cases run d in
    elim how [
      | inl down ↦
          let clash : ◌≡◌ {A = Result Error A × Db} (err failed, record d { outages = outs })
              (ok a, d2) =
            sym down ∙ h in
          absurd (ground (arith, ap (λ (r : Result Error A × Db). is_err r.0) clash))
      | inr runs ↦ (outs, sym runs ∙ h)
    ]

pub issue_state-ok :
    (k : String) (s : OauthState) (d d2 : Db)
    → issue_state k s d ≡ (ok tt, d2)
    → (get? k d2.states ≡ some (record s { used_at = none })) × (d2.clients ≡ d.clients)
unfolding issue_state issue_state_row
issue_state-ok k s d d2 h =
    let (outs, ran) = query-ok (issue_state_row k s) d d2 h in
    elim (Option-cases (get? k d.states)) [
      | inr (old, taken) ↦ absurd (ground (arith, taken, ran))
      | inl new ↦
          let stored : d2.states ≡ (k, record s { used_at = none }) ∷ d.states =
            ground (arith, new, ran) in
          (ap (λ l. get? k l) stored ∙ (rw (beq_self k) refl), ground (arith, new, ran))
    ]

pub consume_state-ok :
    (db_now : ℕ) (k : String) (s : OauthState) (d d2 : Db)
    → consume_state db_now k d ≡ (ok s, d2)
    → (old : OauthState) × (get? k d.states ≡ some old)
      × (old.used_at ≡ none)
      × (ltb db_now old.expires_at ≡ true)
      × (s ≡ record old { used_at = some db_now })
      × (d2.clients ≡ d.clients)
unfolding consume_state consume_state_row is_set
consume_state-ok db_now k s d d2 h =
    let (outs, ran) = query-ok (consume_state_row db_now k) d d2 h in
    elim (Option-cases (get? k d.states)) [
      | inl gone ↦ absurd (ground (arith, gone, ran))
      | inr (old, found) ↦ elim (Option-cases (old.used_at)) [
        | inl unused ↦ elim (Bool-cases (ltb db_now old.expires_at)) [
          | inl live ↦ (
            old,
            found,
            unused,
            live,
            ground (arith, found, unused, live, ran),
            ground (arith, found, unused, live, ran),
          )
          | inr late ↦ absurd (ground (arith, found, unused, late, ran))
        ]
        | inr (t, used) ↦ absurd (ground (arith, found, used, ran))
      ]
    ]

pub issue-ok :
    (sha256_hex s256 : String → String) (raw_code : String) (code : AuthCode) (d d2 : Db)
    (raw : String)
    → issue sha256_hex s256 raw_code code d ≡ (ok raw, d2)
    → (raw ≡ raw_code)
      × (get? (sha256_hex raw_code) d2.codes ≡ some (record code { used_at = none }))
unfolding issue issue_code issue_code_row
issue-ok sha256_hex s256 raw_code code d d2 raw h =
    let k = sha256_hex raw_code in
    let (u, s, e, f) = then_do-ok (issue_code k code d) _ h in
    let (outs, ran) = query-ok (issue_code_row k code) d s e in
    let same : raw_code ≡ raw = ap (λ (r : Result Error String × Db). answer_of raw_code r.0) f in
    let end : s ≡ d2 = ap (λ (r : Result Error String × Db). r.1) f in
    elim (Option-cases (get? k d.codes)) [
      | inr (old, taken) ↦ absurd (ground (arith, taken, ran))
      | inl new ↦
          let stored : s.codes ≡ (k, record code { used_at = none }) ∷ d.codes =
            ground (arith, new, ran) in
          (
            sym same,
            subst (λ (s : Db). get? k s.codes ≡ some (record code { used_at = none })) end
                (ap (λ l. get? k l) stored ∙ (rw (beq_self k) refl)),
          )
    ]

-- The row that the lookup of a client returns.
abbrev pub FirstClient : String → OauthClient → List OauthClient → Type 0
FirstClient client_id c rows = first_row (select (is_client client_id) rows) ≡ ok c

pub lookup_client-FirstClient :
    (client_id : String) (c : OauthClient) (d d2 : Db)
    → lookup_client client_id d ≡ (ok c, d2)
    → FirstClient client_id c d.clients × (d2.clients ≡ d.clients)
unfolding lookup_client
lookup_client-FirstClient client_id c d d2 h =
    let (outs, ran) =
      query-ok (λ (d : Db). (first_row (select (is_client client_id) d.clients), d)) d d2 h in
    (
      ap (λ (r : Result Error OauthClient × Db). r.0) ran,
      ap (λ (r : Result Error OauthClient × Db). (r.1).clients) (sym ran),
    )

-- Two lookups on the same rows return the same client.
pub FirstClient-unique :
    (client_id : String) (c c2 : OauthClient) (rows : List OauthClient)
    → FirstClient client_id c rows
    → FirstClient client_id c2 rows
    → c2 ≡ c
FirstClient-unique client_id c c2 rows first second = ap (answer_of c) (sym second ∙ first)
