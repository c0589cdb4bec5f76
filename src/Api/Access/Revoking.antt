-- ===== src/Api/Access/Revoking.antt =====
-- What revoking a key comes to in its rows: internal/infra/storage/postgres/api_key_repo.go.
use meeting_baa_s.Base.{
  ◌≡◌, refl, ap, ◌∙◌, ◌⊎◌, inl, inr, ℕ, String, true, not, ◌&&◌, none, some, List, [], ◌∷◌, Result,
  ok, err, Failure, arith, All, str_eq, str_eq-eq, is_some, Bool-cases,
}
use meeting_baa_s.Api.Access.{Bytes}
use meeting_baa_s.Api.Access.Keys.{
  ApiKey, Issuing, has_hash, same_bytes, find_key, new_key, inserted_key, drawn, issue,
  lookup_by_plaintext, revoke_one, revoke_rows, revoke,
}

-- The row with the digest, if any, is revoked.
abbrev pub IsRevoked : String → ApiKey → Type 0
IsRevoked h k = str_eq k.key_hash h ≡ true → is_some k.revoked_at ≡ true

find_key-revoked :
    (now : ℕ) (h : String) (keys : List ApiKey)
    → All (IsRevoked h) keys
    → find_key now h keys ≡ err "not found"
unfolding find_key
find_key-revoked now h [] r = refl
find_key-revoked now h (k ∷ ks) (r, rs) =
    let rest = find_key-revoked now h ks rs in
    elim (Bool-cases (str_eq k.key_hash h)) [
      | inl e ↦ (let dead = r e in rw (e, dead) rest)
      | inr e ↦ rw e rest
    ]

pub lookup-revoked :
    (digest : String → String) (failed : Failure) (now : ℕ) (token : String) (keys : List ApiKey)
    → All (IsRevoked (digest token)) keys
    → (e : String) × (lookup_by_plaintext digest failed now token keys ≡ err e)
unfolding lookup_by_plaintext
lookup-revoked digest none now token keys r =
    ("not found", find_key-revoked now (digest token) keys r)
lookup-revoked digest (some e) now token keys r = (_, refl)

-- A digest that stays taken, by rows that stay revoked.
abbrev pub IsGone : String → List ApiKey → Type 0
IsGone h keys = (has_hash h keys ≡ true) × All (IsRevoked h) keys

pub revoke_rows-has_hash :
    (now : ℕ) (id : Bytes) (h : String) (keys : List ApiKey)
    → has_hash h (revoke_rows now id keys) ≡ has_hash h keys
unfolding revoke_rows
revoke_rows-has_hash now id h [] = refl
revoke_rows-has_hash now id h (k ∷ ks) =
    let rest = revoke_rows-has_hash now id h ks in
    elim (Bool-cases (same_bytes k.row.id id && not (is_some k.revoked_at))) [
      | inl e ↦ rw (e, rest) refl
      | inr e ↦ rw (e, rest) refl
    ]

revoke_one-IsRevoked :
    (now : ℕ) (id : Bytes) (h : String) (k : ApiKey)
    → IsRevoked h k ⊎ (str_eq k.key_hash h ≡ true → same_bytes k.row.id id ≡ true)
    → IsRevoked h (revoke_one now id k)
revoke_one-IsRevoked now id h k r =
    elim (Bool-cases (same_bytes k.row.id id && not (is_some k.revoked_at))) [
      | inl e ↦ rw e (λ m. refl)
      | inr e ↦
          rw e (λ m. elim r [ inl old ↦ old m | inr mine ↦ (let here = mine m in ground arith) ])
    ]

pub revoke_rows-IsRevoked :
    (now : ℕ) (id : Bytes) (h : String) (keys : List ApiKey)
    → All (λ k. IsRevoked h k ⊎ (str_eq k.key_hash h ≡ true → same_bytes k.row.id id ≡ true)) keys
    → All (IsRevoked h) (revoke_rows now id keys)
unfolding revoke_rows
revoke_rows-IsRevoked now id h [] r = tt
revoke_rows-IsRevoked now id h (k ∷ ks) (r, rs) =
    (revoke_one-IsRevoked now id h k r, revoke_rows-IsRevoked now id h ks rs)

pub All-weaken {κ μ} :
    {P : ApiKey → Type κ} {Q : ApiKey → Type μ} (keys : List ApiKey)
    → ((k : ApiKey) → P k → Q k)
    → All P keys
    → All Q keys
All-weaken [] f a = tt
All-weaken (k ∷ ks) f (a, rest) = (f k a, All-weaken ks f rest)

pub revoke-IsGone :
    (failed : Failure) (now : ℕ) (id : Bytes) (h : String) (keys : List ApiKey)
    → IsGone h keys
    → IsGone h (revoke failed now id keys).1
unfolding revoke
revoke-IsGone (some e) now id h keys g = g
revoke-IsGone none now id h keys (t, r) = (
  revoke_rows-has_hash now id h keys ∙ t,
  revoke_rows-IsRevoked now id h keys (All-weaken keys (λ k g. inl g) r),
)

pub revoke_by_id-IsGone :
    (now : ℕ) (id : Bytes) (h : String) (keys : List ApiKey)
    → has_hash h keys ≡ true
    → All (λ k. str_eq k.key_hash h ≡ true → same_bytes k.row.id id ≡ true) keys
    → IsGone h (revoke none now id keys).1
unfolding revoke
revoke_by_id-IsGone now id h keys t mine = (
  revoke_rows-has_hash now id h keys ∙ t,
  revoke_rows-IsRevoked now id h keys (All-weaken keys (λ k g. inr g) mine),
)

module _ (digest : String → String) (bytes : String → Bytes) where
  -- The digest is unique: a key with it cannot be issued again.
  inserted-IsGone :
      (i : Issuing) (hex h : String) (id : Result Bytes) (keys : List ApiKey)
      → IsGone h keys
      → IsGone h (inserted_key digest bytes i hex id keys).1
  inserted-IsGone i hex h (err e) keys g = g
  inserted-IsGone i hex h (ok id) keys (t, r) =
      let k = new_key digest bytes i hex id in
      elim (Bool-cases (has_hash k.key_hash keys)) [
        | inl e ↦ rw e (t, r)
        | inr e ↦ rw e (
          ground (arith, t),
          (
            (λ m. let same = ap (λ x. has_hash x keys) (str_eq-eq m) in ground (arith, same, t, e)),
            r,
          ),
        )
      ]

  drawn-IsGone :
      (i : Issuing) (hex : Result String) (h : String) (keys : List ApiKey)
      → IsGone h keys
      → IsGone h (drawn digest bytes i hex keys).1
  drawn-IsGone i (err e) h keys g = g
  drawn-IsGone i (ok hex) h keys g = inserted-IsGone i hex h i.inserted keys g

  pub issue-IsGone :
      (i : Issuing) (h : String) (keys : List ApiKey)
      → IsGone h keys
      → IsGone h (issue digest bytes i keys).1
  unfolding issue
  issue-IsGone i h keys g = elim (Bool-cases (str_eq i.name "")) [
    | inl e ↦ rw e g
    | inr e ↦ rw e (drawn-IsGone i i.random h keys g)
  ]
