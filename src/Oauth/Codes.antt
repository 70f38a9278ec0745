-- ===== src/Oauth/Codes.antt =====
-- codes.go: a code is used once.
use postbrain.Prelude.{
  ℕ, String, string_eq, ◌≡◌, refl, sym, ap, subst, ◌∙◌, ◌⊎◌, inl, inr, Bool, true, false, ◌&&◌,
  negb, Bool-cases, Option-cases, List, [], ◌∷◌, Option, none, some, ltb, ◌==◌, beq_self, Result,
  ok, err, get?, modify, get?-modify, arith,
}
use postbrain.Oauth.{
  AuthCode, Db, Error, no_rows, unique_violation, code_not_found, code_used, code_expired,
  pkce_mismatch, missing_challenge, failed, query, is_set, consume_row, consume_code,
  get_code_by_hash, or_explain, consume,
}

-- The code under the hash is there and was used.
abbrev pub IsUsed : String → Db → Type 0
IsUsed h d = (c : AuthCode) × (t : ℕ) × (get? h d.codes ≡ some c) × (c.used_at ≡ some t)

-- What a consumption does when it succeeds.
abbrev pub Consumed : ℕ → String → AuthCode → Db → Db → Type 0
Consumed db_now h c d d2 =
    (old : AuthCode) × (get? h d.codes ≡ some old)
    × (old.used_at ≡ none)
    × (ltb db_now old.expires_at ≡ true)
    × (c ≡ record old { used_at = some db_now })
    × (d2.codes ≡ modify h (λ (c : AuthCode). record c { used_at = some db_now }) d.codes)

outages-cases :
    (l : List Bool)
    → (l ≡ [])
      ⊎ ((rest : List Bool) × (l ≡ true ∷ rest))
      ⊎ ((rest : List Bool) × (l ≡ false ∷ rest))
outages-cases [] = inl refl
outages-cases (true ∷ rest) = inr (inl (rest, refl))
outages-cases (false ∷ rest) = inr (inr (rest, refl))

-- A query fails, or runs on the same tables.
pub query-cases {ℓ} :
    {A : Type ℓ} (run : Db → Result Error A × Db) (d : Db)
    → (outs : List Bool) × ((query run d ≡ (err failed, record d { outages = outs }))
        ⊎ (query run d ≡ run (record d { outages = outs })))
unfolding query
query-cases run d = elim (outages-cases d.outages) [
  | inl none_left ↦ ([], inr (rw none_left refl))
  | inr (inl (rest, down)) ↦ (rest, inl (rw down refl))
  | inr (inr (rest, fine)) ↦ (rest, inr (rw fine refl))
]

consume_row-Consumed :
    (db_now : ℕ) (h : String) (c : AuthCode) (d d2 : Db)
    → consume_row db_now h d ≡ (ok c, d2)
    → Consumed db_now h c d d2
unfolding consume_row is_set
consume_row-Consumed db_now h c d d2 e = elim (Option-cases (get? h d.codes)) [
  | inl gone ↦ absurd (ground (arith, gone))
  | inr (old, found) ↦ elim (Option-cases (old.used_at)) [
    | inl unused ↦ elim (Bool-cases (ltb db_now old.expires_at)) [
      | inl live ↦ (
        old,
        found,
        unused,
        live,
        ground (arith, found, unused, live),
        ground (arith, found, unused, live),
      )
      | inr late ↦ absurd (ground (arith, found, unused, late))
    ]
    | inr (t, used) ↦ absurd (ground (arith, found, used))
  ]
]

consume_code-Consumed :
    (db_now : ℕ) (h : String) (c : AuthCode) (d d2 : Db)
    → consume_code db_now h d ≡ (ok c, d2)
    → Consumed db_now h c d d2
unfolding consume_code
consume_code-Consumed db_now h c d d2 e =
    let (outs, how) = query-cases (consume_row db_now h) d in
    elim how [
      | inl down ↦
          let clash : ◌≡◌ {A = Result Error AuthCode × Db} (err failed, record d { outages = outs })
              (ok c, d2) =
            sym down ∙ e in
          absurd (ground (arith, clash))
      | inr runs ↦ consume_row-Consumed db_now h c (record d { outages = outs }) d2 (sym runs ∙ e)
    ]

-- What a consumption may do to the table.
abbrev Marked : ℕ → String → Db → Db → Type 0
Marked db_now h d d2 =
    (d2.codes ≡ d.codes)
    ⊎ (d2.codes ≡ modify h (λ (c : AuthCode). record c { used_at = some db_now }) d.codes)

consume_row-Marked :
    (db_now : ℕ) (h : String) (d : Db) → Marked db_now h d (consume_row db_now h d).1
unfolding consume_row
consume_row-Marked db_now h d = elim (Option-cases (get? h d.codes)) [
  | inl gone ↦ inl (rw (gone, consume_row) refl)
  | inr (old, found) ↦ elim (Bool-cases (negb (is_set old.used_at) && ltb db_now old.expires_at)) [
    | inl fit ↦ inr (rw (found, consume_row, fit) refl)
    | inr unfit ↦ inl (rw (found, consume_row, unfit) refl)
  ]
]

consume_code-Marked :
    (db_now : ℕ) (h : String) (d : Db) → Marked db_now h d (consume_code db_now h d).1
unfolding consume_code
consume_code-Marked db_now h d =
    let (outs, how) = query-cases (consume_row db_now h) d in
    elim how [
      | inl down ↦ inl (ap (λ (r : Result Error AuthCode × Db). (r.1).codes) down)
      | inr runs ↦
          subst (λ (r : Result Error AuthCode × Db). Marked db_now h d r.1) (sym runs)
            (consume_row-Marked db_now h (record d { outages = outs }))
    ]

get_code_by_hash-codes : (h : String) (d : Db) → (get_code_by_hash h d).1.codes ≡ d.codes
unfolding get_code_by_hash
get_code_by_hash-codes h d =
    let run = λ (d : Db). elim (get? h d.codes) as (λ _. Result Error AuthCode × Db) [
      | none ↦ (err no_rows, d)
      | some c ↦ (ok c, d)
    ] in
    let (outs, how) = query-cases run d in
    elim how [
      | inl down ↦ ap (λ (r : Result Error AuthCode × Db). (r.1).codes) down
      | inr runs ↦
          ap (λ (r : Result Error AuthCode × Db). (r.1).codes) runs
          ∙ (elim (Option-cases (get? h d.codes)) [
            | inl gone ↦ rw gone refl
            | inr (c, found) ↦ rw found refl
          ])
    ]

IsUsed-Marked :
    (db_now : ℕ) (k h : String) (d d2 : Db) → Marked db_now k d d2 → IsUsed h d → IsUsed h d2
IsUsed-Marked db_now k h d d2 m (c, t, found, used) = elim m [
  | inl same ↦ (c, t, ap (λ l. get? h l) same ∙ found, used)
  | inr changed ↦
      let mark = λ (c : AuthCode). record c { used_at = some db_now } in
      let now_found = ap (λ l. get? h l) changed ∙ get?-modify k h mark d.codes in
      elim (Bool-cases (k == h)) [
        | inl here ↦ (mark c, db_now, now_found ∙ rw (here, found) refl, refl)
        | inr other ↦ (c, t, now_found ∙ rw (other, found) refl, used)
      ]
]

module _ (sha256_hex s256 : String → String) where
  or_explain-ok :
      (now : ℕ) (raw : String) (c : AuthCode) (d2 : Db) (r : Result Error AuthCode) (s : Db)
      → or_explain sha256_hex s256 now raw r s ≡ (ok c, d2)
      → ◌≡◌ {A = Result Error AuthCode × Db} (r, s) (ok c, d2)
  unfolding or_explain
  or_explain-ok now raw c d2 (ok a) s e = e
  or_explain-ok now raw c d2 (err no_rows) s e =
      absurd (ground (arith, ap (λ (r : Result Error AuthCode × Db). r.0) e))
  or_explain-ok now raw c d2 (err unique_violation) s e = cc
  or_explain-ok now raw c d2 (err code_not_found) s e = cc
  or_explain-ok now raw c d2 (err code_used) s e = cc
  or_explain-ok now raw c d2 (err code_expired) s e = cc
  or_explain-ok now raw c d2 (err pkce_mismatch) s e = cc
  or_explain-ok now raw c d2 (err missing_challenge) s e = cc
  or_explain-ok now raw c d2 (err failed) s e = cc

  or_explain-codes :
      (now : ℕ) (raw : String) (r : Result Error AuthCode) (s : Db)
      → (or_explain sha256_hex s256 now raw r s).1.codes ≡ s.codes
  unfolding or_explain
  or_explain-codes now raw (ok a) s = refl
  or_explain-codes now raw (err no_rows) s = get_code_by_hash-codes (sha256_hex raw) s
  or_explain-codes now raw (err unique_violation) s = refl
  or_explain-codes now raw (err code_not_found) s = refl
  or_explain-codes now raw (err code_used) s = refl
  or_explain-codes now raw (err code_expired) s = refl
  or_explain-codes now raw (err pkce_mismatch) s = refl
  or_explain-codes now raw (err missing_challenge) s = refl
  or_explain-codes now raw (err failed) s = refl

  -- A consumption that succeeds is one of an unused code that is not expired.
  pub consume-Consumed :
      (db_now now : ℕ) (raw : String) (c : AuthCode) (d d2 : Db)
      → consume sha256_hex s256 db_now now raw d ≡ (ok c, d2)
      → Consumed db_now (sha256_hex raw) c d d2
  unfolding consume
  consume-Consumed db_now now raw c d d2 e =
      let r = consume_code db_now (sha256_hex raw) d in
      consume_code-Consumed db_now (sha256_hex raw) c d d2 (or_explain-ok now raw c d2 r.0 r.1 e)

  -- Every consumption leaves a used code used.
  pub IsUsed-consume :
      (db_now now : ℕ) (raw h : String) (d : Db)
      → IsUsed h d
      → IsUsed h (consume sha256_hex s256 db_now now raw d).1
  unfolding consume
  IsUsed-consume db_now now raw h d u =
      let r = consume_code db_now (sha256_hex raw) d in
      let (c, t, found, used) =
        IsUsed-Marked db_now (sha256_hex raw) h d r.1
          (consume_code-Marked db_now (sha256_hex raw) d) u in
      (c, t, ap (λ l. get? h l) (or_explain-codes now raw r.0 r.1) ∙ found, used)

-- The consumed code is used.
pub Consumed-IsUsed :
    (db_now : ℕ) (h : String) (c : AuthCode) (d d2 : Db) → Consumed db_now h c d d2 → IsUsed h d2
Consumed-IsUsed db_now h c d d2 (old, found, unused, live, same, codes) =
    let mark = λ (c : AuthCode). record c { used_at = some db_now } in
    (
      mark old,
      db_now,
      ap (λ l. get? h l) codes ∙ get?-modify h h mark d.codes ∙ rw (beq_self h, found) refl,
      refl,
    )

-- A used code is not consumed.
pub IsUsed-Consumed :
    (db_now : ℕ) (h : String) (c : AuthCode) (d d2 : Db) → IsUsed h d → Consumed db_now h c d d2 → ⊥
IsUsed-Consumed db_now h c d d2 (u, t, found, used) (old, at, unused, live, same, codes) =
    let twice : ◌≡◌ {A = Option AuthCode} (some u) (some old) = sym found ∙ at in
    ground (arith, twice, used, unused)
