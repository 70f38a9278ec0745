-- ===== src/Oauth/Exchange/Preserving.antt =====
-- token_handler.go, token_exchange.go and codes.go: no call makes a used code unused.
use postbrain.Prelude.{
  ℕ, String, string_eq, nat_eq, ◌≡◌, sym, ap, subst, ◌∙◌, inl, inr, ◌||◌, negb, Bool-cases,
  Option-cases, List, [], ◌∷◌, map, Option, none, some, ◌==◌, eq_of_beq, if◌then◌else◌, any, Result,
  ok, err, get?, select, arith,
}
use postbrain.Prelude.Stateful.{M, then_do, ◌>>=◌}
use postbrain.Oauth.{
  AuthCode, Token, Db, Error, query, is_set, issue_code_row, issue_code, consume, issue,
}
use postbrain.Oauth.Codes.{IsUsed, query-cases, IsUsed-consume}
use postbrain.Oauth.Exchange.{
  TokenRequest, Refusal, refusal, first_row, is_client, lookup_client, known_client, authenticate,
  check_form, check, or_refuse, refuse_code, issue_token, handle_token, revoke_each, revoke_token,
  revoke_by_principal_and_name, list_tokens_by_principal, create_token,
}

-- Steps that leave a used code used.
module _ (h : String) where
  abbrev pub Preserves {ℓ} : {E A : Type ℓ} → M Db E A → Type 0
  Preserves m = (d : Db) → IsUsed h d → IsUsed h (m d).1

  pub then_do-Preserves :
      {E A B : Type 0} (r : Result E A × Db) (f : A → M Db E B)
      → ((a : A) → Preserves (f a))
      → IsUsed h r.1
      → IsUsed h (then_do r f).1
  then_do-Preserves (ok a, s) f q u = q a s u
  then_do-Preserves (err e, s) f q u = u

  pub Preserves-bind :
      {E A B : Type 0} (m : M Db E A) (f : A → M Db E B)
      → Preserves m
      → ((a : A) → Preserves (f a))
      → Preserves (m >>= f)
  Preserves-bind m f p q d u = then_do-Preserves (m d) f q (p d u)

  pub Preserves-query :
      {A : Type 0} (run : Db → Result Error A × Db) → Preserves run → Preserves (query run)
  Preserves-query run p d u =
      let (outs, how) = query-cases run d in
      elim how [
        | inl down ↦ subst (λ r. IsUsed h r.1) (sym down) u
        | inr runs ↦ subst (λ r. IsUsed h r.1) (sym runs) (p (record d { outages = outs }) u)
      ]

  or_refuse-state :
      {A : Type 0} (f : Error → Refusal) (r : Result Error A × Db)
      → IsUsed h r.1
      → IsUsed h
          (elim (r.0) as (λ _. Result Refusal A × Db) [
            | ok a ↦ (ok a, r.1)
            | err e ↦ (err (f e), r.1)
          ]).1
  or_refuse-state f (ok a, s) u = u
  or_refuse-state f (err e, s) u = u

  pub Preserves-or_refuse :
      {A : Type 0} (f : Error → Refusal) (m : M Db Error A)
      → Preserves m
      → Preserves (or_refuse f m)
  unfolding or_refuse
  Preserves-or_refuse f m p d u = or_refuse-state f (m d) (p d u)

  pub Preserves-known_client : (client_id : String) → Preserves (known_client client_id)
  unfolding known_client lookup_client
  Preserves-known_client client_id d u =
      or_refuse-state (λ e. refusal 401 "invalid_client") (lookup_client client_id d)
        (Preserves-query (λ d. (first_row (select (is_client client_id) d.clients), d)) (λ d u. u) d
          u)

  pub Preserves-revoke_each :
      (db_now : ℕ) (name : String) (ts : List Token) → Preserves (revoke_each db_now name ts)
  unfolding revoke_each revoke_token
  Preserves-revoke_each db_now name [] = λ d u. u
  Preserves-revoke_each db_now name (t ∷ ts) =
      elim (Bool-cases (negb (t.name == name) || is_set t.revoked_at)) [
        | inl skipped ↦ rw skipped (Preserves-revoke_each db_now name ts)
        | inr due ↦ rw due (
            Preserves-bind (revoke_token db_now t.id) (λ u. revoke_each db_now name ts)
              (Preserves-query
                (λ d. (
                  ok tt,
                  record d {
                    tokens =
                        map
                          (λ (s : Token).
                            if s.id == t.id then record s { revoked_at = some db_now } else s)
                          d.tokens;
                  },
                ))
                (λ d u. u))
              (λ u. Preserves-revoke_each db_now name ts))
      ]

  pub Preserves-create_token : (token : Token) → Preserves (create_token token)
  unfolding create_token
  Preserves-create_token token =
      let taken = λ (d : Db). any (λ (t : Token). t.token_hash == token.token_hash) d.tokens in
      Preserves-query _
        λ d u. elim (Bool-cases (taken d)) [ inl dup ↦ rw dup u | inr new ↦ rw new u ]

  pub Preserves-issue_token :
      (db_now now ttl new_id : ℕ) (generated : String × String) (principal_id : ℕ)
      (scopes : List String)
      → Preserves (issue_token db_now now ttl new_id generated principal_id scopes)
  unfolding issue_token revoke_by_principal_and_name list_tokens_by_principal
  Preserves-issue_token db_now now ttl new_id generated principal_id scopes =
      Preserves-bind (revoke_by_principal_and_name db_now principal_id "oauth") _
        (Preserves-bind (list_tokens_by_principal principal_id) _ (Preserves-query _ λ d u. u)
          λ tokens. Preserves-revoke_each db_now "oauth" tokens)
        λ v. Preserves-bind (create_token _) _ (Preserves-create_token _) λ w d u. u

pub Preserves-issue_code : (h k : String) (code : AuthCode) → Preserves h (issue_code k code)
unfolding issue_code issue_code_row
Preserves-issue_code h k code = Preserves-query h _ λ d u. elim (Option-cases (get? k d.codes)) [
  | inr (c, taken) ↦ rw (taken, issue_code_row) u
  | inl new ↦
      let (c, t, found, used) = u in
      elim (Bool-cases (k == h)) [
        | inl same ↦
            let clash : ◌≡◌ {A = Option AuthCode} none (some c) =
              sym new ∙ ap (λ j. get? j d.codes) (eq_of_beq k h same) ∙ found in
            absurd (ground (arith, clash))
        | inr other ↦ rw (new, issue_code_row) (c, t, rw other found, used)
      ]
]

module _ (sha256_hex s256 : String → String) where
  pub Preserves-handle_token :
      (h : String) (db_now now ttl new_id : ℕ) (generated : String × String) (req : TokenRequest)
      → Preserves h (handle_token sha256_hex s256 db_now now ttl new_id generated req)
  unfolding handle_token
  Preserves-handle_token h db_now now ttl new_id generated req =
      Preserves-bind h (check (check_form req)) _ (λ d u. u)
        λ v.
          Preserves-bind h (known_client req.client_id) _ (Preserves-known_client h req.client_id)
            λ client.
              Preserves-bind h (or_refuse refuse_code (consume sha256_hex s256 db_now now req.code))
                _
                (Preserves-or_refuse h refuse_code _
                  (IsUsed-consume sha256_hex s256 db_now now req.code h))
                λ code.
                  Preserves-bind h (check (authenticate sha256_hex s256 req client code)) _
                    (λ d u. u)
                    λ w.
                      Preserves-bind h
                        (or_refuse (λ e. refusal 500 "server_error")
                          (issue_token db_now now ttl new_id generated code.principal_id
                            code.scopes))
                        _
                        (Preserves-or_refuse h _ _ (
                          Preserves-issue_token h db_now now ttl new_id generated code.principal_id
                            code.scopes))
                        λ raw d u. u

  -- Issuing another code leaves a used one used.
  pub IsUsed-issue :
      (h raw : String) (code : AuthCode) → Preserves h (issue sha256_hex s256 raw code)
  unfolding issue issue_code
  IsUsed-issue h raw code =
      Preserves-bind h (issue_code (sha256_hex raw) code) _
        (Preserves-issue_code h (sha256_hex raw) code) λ v d u. u
