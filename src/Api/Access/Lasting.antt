-- ===== src/Api/Access/Lasting.antt =====
-- A token that Issue gave resolves until its key is revoked.
use meeting_baa_s.Base.{
  ◌≡◌, refl, sym, ap, ◌∙◌, ◌⊎◌, inl, inr, ℕ, String, true, false, none, some, List, [], ◌∷◌, ok,
  Failure, arith, All, ltb, str_eq, str_eq-eq, Bool-cases, Option-cases, Result-cases, some_inj,
  subst,
}
use meeting_baa_s.Api.Access.{
  ApiKeyRow, Bytes, Entry, Lookup, Cache, cached_key, look_up, resolve_api_key, encode_key,
}
use meeting_baa_s.Api.Access.Caching.{IsPlain, cached_key-found}
use meeting_baa_s.Api.Access.Issued.{
  IsFirst, find_key-IsFirst, revoke-IsFirst, issue-IsFirst_kept, issue-IsFirst, ok_inj,
}
use meeting_baa_s.Api.Access.Keys.{
  ApiKey, Issuing, KeyEvent, issued, revoked, resolved, Keys, same_bytes, issue,
  lookup_by_plaintext, lookup_at, happen, happen_all,
}

-- What does not revoke the key.
abbrev pub Spares : Bytes → ℕ × KeyEvent → Type 0
Spares id (now, issued i) = true ≡ true
Spares id (now, revoked failed other) = same_bytes id other ≡ false
Spares id (now, resolved token got set failed) = true ≡ true

-- What the cache holds for a digest is a row's value.
abbrev IsCachedAs : ApiKeyRow → String → Cache → Type 0
IsCachedAs row h cache = (e : Entry) → cache h ≡ some e → e.value ≡ encode_key row

lookup-IsFirst :
    (digest : String → String) (failed : Failure) (now : ℕ) (token : String) (k : ApiKey)
    (keys : List ApiKey) (row : ApiKeyRow)
    → IsFirst (digest token) k keys
    → lookup_by_plaintext digest failed now token keys ≡ ok row
    → row ≡ k.row
unfolding lookup_by_plaintext
lookup-IsFirst digest (some e) now token k keys row f g = ground (arith, g)
lookup-IsFirst digest none now token k keys row f g =
    ok_inj (sym g ∙ find_key-IsFirst now (digest token) k keys f)

look_up-IsCachedAs :
    (l : Lookup) (key h : String) (row : ApiKeyRow) (cache : Cache)
    → IsCachedAs row h cache
    → (str_eq h key ≡ true → (m : ApiKeyRow) → l.found ≡ ok m → m ≡ row)
    → IsCachedAs row h (look_up true true l key cache).1
unfolding look_up
look_up-IsCachedAs l key h row cache c same = elim (Result-cases l.found) [
  | inr (m, f) ↦ rw (f, look_up) c
  | inl (m, f) ↦ elim (Option-cases l.set) [
    | inr (e, s) ↦ rw (f, s, look_up) c
    | inl s ↦
        rw (f, s, look_up)
          (elim (Bool-cases (str_eq h key)) [
            | inl e ↦
                rw e (λ x i. ap (λ y. y.value) (sym (some_inj i)) ∙ ap encode_key (same e m f))
            | inr e ↦ rw e c
          ])
  ]
]

cached_key-IsCachedAs :
    (l : Lookup) (h : String) (row : ApiKeyRow) (cache : Cache)
    → IsPlain row
    → IsCachedAs row h cache
    → (cached_key l h cache ≡ none) ⊎ (cached_key l h cache ≡ some row)
unfolding cached_key
cached_key-IsCachedAs l h row cache p c = elim (Option-cases l.got) [
  | inr (m, g) ↦ inl (rw (g, cached_key) refl)
  | inl g ↦ elim (Option-cases (cache h)) [
    | inl n ↦ inl (rw (g, n, cached_key) refl)
    | inr (e, n) ↦ elim (Bool-cases (ltb l.now e.until)) [
      | inr old ↦ inl (rw (g, n, old, cached_key) refl)
      | inl soon ↦ inr (cached_key-found l h cache e row p g n (ground arith) (c e n))
    ]
  ]
]

module _ (digest : String → String) (bytes : String → Bytes) where
  -- The row that a digest resolves to, and what the cache has for it.
  abbrev IsHeld : String → ApiKey → Keys → Type 0
  IsHeld h k s = IsFirst h k s.rows × IsCachedAs k.row h s.cache

  resolve-IsCachedAs :
      (l : Lookup) (token h : String) (row : ApiKeyRow) (cache : Cache)
      → IsCachedAs row h cache
      → (str_eq h (digest token) ≡ true → (m : ApiKeyRow) → l.found ≡ ok m → m ≡ row)
      → IsCachedAs row h (resolve_api_key digest true true l token cache).1
  unfolding resolve_api_key
  resolve-IsCachedAs l token h row cache c same =
      elim (Option-cases (cached_key l (digest token) cache)) [
        | inr (m, f) ↦ rw (f, resolve_api_key) c
        | inl f ↦ rw (f, resolve_api_key) (look_up-IsCachedAs l (digest token) h row cache c same)
      ]

  happen-IsHeld :
      (e : ℕ × KeyEvent) (h : String) (k : ApiKey) (s : Keys)
      → Spares k.row.id e
      → IsHeld h k s
      → IsHeld h k (happen digest bytes e s)
  unfolding happen
  happen-IsHeld (now, issued i) h k s d (f, c) = (issue-IsFirst_kept digest bytes i h k s.rows f, c)
  happen-IsHeld (now, revoked failed id) h k s d (f, c) =
      (revoke-IsFirst failed now id h k s.rows d f, c)
  happen-IsHeld (now, resolved token got set failed) h k s d (f, c) = (
    f,
    resolve-IsCachedAs (lookup_at digest now token got set failed s) token h k.row s.cache c
        (λ m row g.
          lookup-IsFirst digest failed now token k s.rows row
            (subst (λ x. IsFirst x k s.rows) (str_eq-eq m) f) g),
  )

  happen_all-IsHeld :
      (es : List (ℕ × KeyEvent)) (h : String) (k : ApiKey) (s : Keys)
      → All (Spares k.row.id) es
      → IsHeld h k s
      → IsHeld h k (happen_all digest bytes es s)
  unfolding happen_all
  happen_all-IsHeld [] h k s d i = i
  happen_all-IsHeld (e ∷ es) h k s (d, ds) i =
      happen_all-IsHeld es h k (happen digest bytes e s) ds (happen-IsHeld e h k s d i)

  resolve-IsHeld :
      (now : ℕ) (token : String) (got set : Failure) (k : ApiKey) (s : Keys)
      → IsPlain k.row
      → IsHeld (digest token) k s
      → (resolve_api_key digest true true
          (lookup_at digest now token got set none s)
          token
          s.cache).0
        ≡ ok k.row
  unfolding resolve_api_key look_up lookup_by_plaintext
  resolve-IsHeld now token got set k s p (f, c) =
      let l = lookup_at digest now token got set none s in
      elim (cached_key-IsCachedAs l (digest token) k.row s.cache p c) [
        | inr hit ↦ rw (hit, resolve_api_key) refl
        | inl miss ↦
            let found = find_key-IsFirst now (digest token) k s.rows f in
            elim (Option-cases set) [
              | inl t ↦ rw (miss, resolve_api_key, look_up, found, t) refl
              | inr (m, t) ↦ rw (miss, resolve_api_key, look_up, found, t) refl
            ]
      ]

  -- A token that Issue gave, with nothing cached under its digest, resolves to the four fields of its
  -- row after any events that do not revoke its id, at any time and whatever Redis answers, when the
  -- query does not fail; the texts of the row hold no bar and its limit is not negative.
  pub issued_resolves :
      (i : Issuing) (rows : List ApiKey) (cache : Cache) (k : ApiKey) (token : String)
      (events : List (ℕ × KeyEvent)) (now : ℕ) (got set : Failure)
      → (issue digest bytes i rows).0 ≡ ok (k, token)
      → cache (digest token) ≡ none
      → IsPlain k.row
      → All (Spares k.row.id) events
      → let first : Keys = record { rows = (issue digest bytes i rows).1; cache = cache } in
        let late = happen_all digest bytes events first in
        (resolve_api_key digest true true
          (lookup_at digest now token got set none late)
          token
          late.cache).0
        ≡ ok k.row
  issued_resolves i rows cache k token events now got set g n p d =
      let first : Keys = record { rows = (issue digest bytes i rows).1; cache = cache } in
      let empty : IsCachedAs k.row (digest token) cache = λ e c. ground (arith, n, c) in
      resolve-IsHeld now token got set k (happen_all digest bytes events first) p (
        happen_all-IsHeld events (digest token) k first d
          (issue-IsFirst digest bytes i k token rows g, empty))
