-- ===== src/Api/Access/Revoked.antt =====
-- What revoking a key comes to for the tokens that the API resolves.
use meeting_baa_s.Base.{
  ◌≡◌, refl, sym, ap, ◌∙◌, inl, inr, ◌≤◌, ◌+◌, ℕ, String, true, false, none, some, List, [], ◌∷◌,
  ok, err, Failure, arith, All, ltb, str_eq, str_eq-eq, Bool-cases, Option-cases, Result-cases,
  some_inj, subst,
}
use meeting_baa_s.Api.Access.{
  ApiKeyRow, Bytes, Entry, Lookup, Cache, cached_key, look_up, resolve_api_key,
}
use meeting_baa_s.Api.Access.Keys.{
  ApiKey, KeyEvent, issued, revoked, resolved, Keys, has_hash, same_bytes, lookup_at, happen,
  happen_all, no_entries,
}
use meeting_baa_s.Api.Access.Revoking.{
  IsRevoked, IsGone, lookup-revoked, revoke-IsGone, revoke_by_id-IsGone, issue-IsGone,
}

module _ (digest : String → String) (bytes : String → Bytes) where
  -- The cache holds nothing for the digest beyond an instant.
  abbrev IsCachedUntil : ℕ → String → Cache → Type 0
  IsCachedUntil t h cache = (e : Entry) → cache h ≡ some e → e.until ≤ t

  look_up-IsCachedUntil :
      (l : Lookup) (key h : String) (t : ℕ) (cache : Cache)
      → IsCachedUntil t h cache
      → (str_eq h key ≡ true → (m : ApiKeyRow) → l.found ≡ ok m → l.now + 300 ≤ t)
      → IsCachedUntil t h (look_up true true l key cache).1
  unfolding look_up
  look_up-IsCachedUntil l key h t cache c soon = elim (Result-cases l.found) [
    | inr (m, f) ↦ rw (f, look_up) c
    | inl (row, f) ↦ elim (Option-cases l.set) [
      | inr (m, s) ↦ rw (f, s, look_up) c
      | inl s ↦
          rw (f, s, look_up)
            (elim (Bool-cases (str_eq h key)) [
              | inl e ↦ rw e (λ x i.
                  let u : l.now + 300 ≡ x.until = ap (λ y. y.until) (some_inj i) in
                  let b = soon e row f in omega arith)
              | inr e ↦ rw e c
            ])
    ]
  ]

  resolve-IsCachedUntil :
      (l : Lookup) (token h : String) (t : ℕ) (cache : Cache)
      → IsCachedUntil t h cache
      → (str_eq h (digest token) ≡ true → (m : ApiKeyRow) → l.found ≡ ok m → l.now + 300 ≤ t)
      → IsCachedUntil t h (resolve_api_key digest true true l token cache).1
  unfolding resolve_api_key
  resolve-IsCachedUntil l token h t cache c soon =
      elim (Option-cases (cached_key l (digest token) cache)) [
        | inr (row, f) ↦ rw (f, resolve_api_key) c
        | inl f ↦ rw (f, resolve_api_key) (look_up-IsCachedUntil l (digest token) h t cache c soon)
      ]

  cached-late :
      (l : Lookup) (h : String) (t : ℕ) (cache : Cache)
      → IsCachedUntil t h cache
      → t ≤ l.now
      → cached_key l h cache ≡ none
  unfolding cached_key
  cached-late l h t cache c late = elim (Option-cases l.got) [
    | inr (m, g) ↦ rw (g, cached_key) refl
    | inl g ↦ elim (Option-cases (cache h)) [
      | inl n ↦ rw (g, n, cached_key) refl
      | inr (e, n) ↦
          let u = c e n in
          let old : ltb l.now e.until ≡ false = ground arith in rw (g, n, old, cached_key) refl
    ]
  ]

  happen-IsCachedUntil :
      (e : ℕ × KeyEvent) (h : String) (r : ℕ) (s : Keys)
      → e.0 ≤ r
      → IsCachedUntil (r + 300) h s.cache
      → IsCachedUntil (r + 300) h (happen digest bytes e s).cache
  unfolding happen
  happen-IsCachedUntil (now, issued i) h r s b c = c
  happen-IsCachedUntil (now, revoked failed id) h r s b c = c
  happen-IsCachedUntil (now, resolved token got set failed) h r s b c =
      resolve-IsCachedUntil (lookup_at digest now token got set failed s) token h (r + 300) s.cache
        c (λ m row f. omega arith)

  happen_all-IsCachedUntil :
      (es : List (ℕ × KeyEvent)) (h : String) (r : ℕ) (s : Keys)
      → All (λ (e : ℕ × KeyEvent). e.0 ≤ r) es
      → IsCachedUntil (r + 300) h s.cache
      → IsCachedUntil (r + 300) h (happen_all digest bytes es s).cache
  unfolding happen_all
  happen_all-IsCachedUntil [] h r s b c = c
  happen_all-IsCachedUntil (e ∷ es) h r s (b, bs) c =
      happen_all-IsCachedUntil es h r (happen digest bytes e s) bs
        (happen-IsCachedUntil e h r s b c)

  -- What no later event undoes.
  abbrev IsShut : ℕ → String → Keys → Type 0
  IsShut t h s = IsGone h s.rows × IsCachedUntil t h s.cache

  happen-IsShut :
      (e : ℕ × KeyEvent) (h : String) (t : ℕ) (s : Keys)
      → IsShut t h s
      → IsShut t h (happen digest bytes e s)
  unfolding happen
  happen-IsShut (now, issued i) h t s (g, c) = (issue-IsGone digest bytes i h s.rows g, c)
  happen-IsShut (now, revoked failed id) h t s (g, c) = (revoke-IsGone failed now id h s.rows g, c)
  happen-IsShut (now, resolved token got set failed) h t s (g, c) = (
    g,
    resolve-IsCachedUntil (lookup_at digest now token got set failed s) token h t s.cache c
        (λ m row f.
          let rev = subst (λ x. All (IsRevoked x) s.rows) (str_eq-eq m) g.1 in
          let no = lookup-revoked digest failed now token s.rows rev in
          let bad : ok row ≡ err no.0 = sym f ∙ no.1 in ground (arith, bad)),
  )

  happen_all-IsShut :
      (es : List (ℕ × KeyEvent)) (h : String) (t : ℕ) (s : Keys)
      → IsShut t h s
      → IsShut t h (happen_all digest bytes es s)
  unfolding happen_all
  happen_all-IsShut [] h t s g = g
  happen_all-IsShut (e ∷ es) h t s g =
      happen_all-IsShut es h t (happen digest bytes e s) (happen-IsShut e h t s g)

  resolve-IsShut :
      (t now : ℕ) (token : String) (got set failed : Failure) (s : Keys)
      → IsShut t (digest token) s
      → t ≤ now
      → (e : String) × ((resolve_api_key digest true true
            (lookup_at digest now token got set failed s)
            token
            s.cache).0
          ≡ err e)
  unfolding resolve_api_key look_up
  resolve-IsShut t now token got set failed s (g, c) late =
      let l = lookup_at digest now token got set failed s in
      let miss = cached-late l (digest token) t s.cache c late in
      let no = lookup-revoked digest failed now token s.rows g.1 in
      (no.0, rw (miss, resolve_api_key, no.1, look_up) refl)

  -- Let a run of the program start with an empty cache and meet any events until `r`, whatever fails
  -- in them. If the digest of a token is then taken and every row with it has an id, and that id is
  -- revoked at `r` without an error, then after any further events, at any time from `r + 300` on,
  -- resolving the token is an error, whatever Redis answers.
  pub revoked_refused :
      (before after : List (ℕ × KeyEvent)) (rows : List ApiKey) (r now : ℕ) (id : Bytes)
      (token : String) (got set failed : Failure)
      → All (λ (e : ℕ × KeyEvent). e.0 ≤ r) before
      → let s = happen_all digest bytes before (record { rows = rows; cache = no_entries }) in
        has_hash (digest token) s.rows ≡ true
        → All (λ k. str_eq k.key_hash (digest token) ≡ true → same_bytes k.row.id id ≡ true) s.rows
        → r + 300 ≤ now
        → let late = happen_all digest bytes ((r, revoked none id) ∷ after) s in
          (e : String) × ((resolve_api_key digest true true
              (lookup_at digest now token got set failed late)
              token
              late.cache).0
            ≡ err e)
  unfolding happen_all happen
  revoked_refused before after rows r now id token got set failed b t mine late =
      let h = digest token in
      let s = happen_all digest bytes before (record { rows = rows; cache = no_entries }) in
      let c =
        happen_all-IsCachedUntil before h r (record { rows = rows; cache = no_entries }) b
          (λ e i. ground (arith, i)) in
      let shut =
        happen_all-IsShut after h (r + 300) (happen digest bytes (r, revoked none id) s)
          (revoke_by_id-IsGone r id h s.rows t mine, c) in
      resolve-IsShut (r + 300) now token got set failed
        (happen_all digest bytes after (happen digest bytes (r, revoked none id) s)) shut late
