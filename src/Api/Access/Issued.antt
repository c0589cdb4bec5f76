-- ===== src/Api/Access/Issued.antt =====
-- The row that Issue gave is the one that its token finds, until it is revoked.
use meeting_baa_s.Base.{
  ◌≡◌, refl, ap, ◌∙◌, inl, inr, ℕ, String, true, false, not, ◌&&◌, Option, none, some, List, [],
  ◌∷◌, Result, ok, err, Failure, arith, str_eq, str_eq-eq, str_eq_refl, is_some, Bool-cases,
  if◌then◌else◌, some_inj, subst,
}
use meeting_baa_s.Api.Access.{Bytes}
use meeting_baa_s.Api.Access.Keys.{
  ApiKey, Issuing, has_hash, same_bytes, is_live, find_key, new_key, inserted_key, drawn, issue,
  revoke_rows, revoke,
}
use Prim.Native.String

abbrev first_with : String → List ApiKey → Option ApiKey
first_with h [] = none
first_with h (k ∷ ks) = let rest = first_with h ks in if str_eq k.key_hash h then some k else rest

first_with-has_hash :
    (h : String) (k : ApiKey) (keys : List ApiKey)
    → first_with h keys ≡ some k
    → has_hash h keys ≡ true
first_with-has_hash h k [] f = ground (arith, f)
first_with-has_hash h k (x ∷ xs) f = elim (Bool-cases (str_eq x.key_hash h)) [
  | inl e ↦ rw e refl
  | inr e ↦ (let rest = first_with-has_hash h k xs (rw e at f) in ground (arith, e, rest))
]

abbrev value_or {ℓ} : {A : Type ℓ} → A → Result A → A
value_or a (ok b) = b
value_or a (err e) = a

pub ok_inj {ℓ} : {A : Type ℓ} → {a b : A} → ok a ≡ ok b → a ≡ b
ok_inj {A = A} {a = a} p = ap (value_or a) p

-- The first row with the digest is the key, and it is live.
abbrev pub IsFirst : String → ApiKey → List ApiKey → Type 0
IsFirst h k keys = (first_with h keys ≡ some k) × ((now : ℕ) → is_live now k ≡ true)

pub find_key-IsFirst :
    (now : ℕ) (h : String) (k : ApiKey) (keys : List ApiKey)
    → IsFirst h k keys
    → find_key now h keys ≡ ok k.row
unfolding find_key
find_key-IsFirst now h k [] (f, l) = ground (arith, f)
find_key-IsFirst now h k (x ∷ xs) (f, l) = elim (Bool-cases (str_eq x.key_hash h)) [
  | inl e ↦
      let same : x ≡ k = some_inj (rw e at f) in
      let live : is_live now x ≡ true = ap (λ y. is_live now y) same ∙ l now in
      rw (e, live) (ap (λ y. ok (y.row)) same)
  | inr e ↦ (let rest = find_key-IsFirst now h k xs (rw e at f, l) in rw e rest)
]

revoke_rows-first_with :
    (now : ℕ) (id : Bytes) (h : String) (k : ApiKey) (keys : List ApiKey)
    → same_bytes k.row.id id ≡ false
    → first_with h keys ≡ some k
    → first_with h (revoke_rows now id keys) ≡ some k
unfolding revoke_rows
revoke_rows-first_with now id h k [] d f = f
revoke_rows-first_with now id h k (x ∷ xs) d f = elim (Bool-cases (str_eq x.key_hash h)) [
  | inl e ↦
      let same : x ≡ k = some_inj (rw e at f) in
      let other : same_bytes x.row.id id ≡ false = ap (λ y. same_bytes y.row.id id) same ∙ d in
      rw (other, e) (ap (λ y. some y) same)
  | inr e ↦
      let rest = revoke_rows-first_with now id h k xs d (rw e at f) in
      elim (Bool-cases (same_bytes x.row.id id && not (is_some x.revoked_at))) [
        | inl m ↦ rw (m, e) rest
        | inr m ↦ rw (m, e) rest
      ]
]

pub revoke-IsFirst :
    (failed : Failure) (now : ℕ) (id : Bytes) (h : String) (k : ApiKey) (keys : List ApiKey)
    → same_bytes k.row.id id ≡ false
    → IsFirst h k keys
    → IsFirst h k (revoke failed now id keys).1
unfolding revoke
revoke-IsFirst (some e) now id h k keys d f = f
revoke-IsFirst none now id h k keys d (f, l) = (revoke_rows-first_with now id h k keys d f, l)

module _ (digest : String → String) (bytes : String → Bytes) where
  inserted_key-IsFirst_kept :
      (i : Issuing) (hex h : String) (id : Result Bytes) (k : ApiKey) (keys : List ApiKey)
      → IsFirst h k keys
      → IsFirst h k (inserted_key digest bytes i hex id keys).1
  inserted_key-IsFirst_kept i hex h (err e) k keys f = f
  inserted_key-IsFirst_kept i hex h (ok id) k keys (f, l) =
      let x = new_key digest bytes i hex id in
      elim (Bool-cases (has_hash x.key_hash keys)) [
        | inl e ↦ rw e (f, l)
        | inr e ↦ elim (Bool-cases (str_eq x.key_hash h)) [
          | inl m ↦
              let taken = first_with-has_hash h k keys f in
              let same = ap (λ y. has_hash y keys) (str_eq-eq m) in ground (arith, same, taken, e)
          | inr m ↦ rw (e, m) (f, l)
        ]
      ]

  drawn-IsFirst_kept :
      (i : Issuing) (hex : Result String) (h : String) (k : ApiKey) (keys : List ApiKey)
      → IsFirst h k keys
      → IsFirst h k (drawn digest bytes i hex keys).1
  drawn-IsFirst_kept i (err e) h k keys f = f
  drawn-IsFirst_kept i (ok hex) h k keys f = inserted_key-IsFirst_kept i hex h i.inserted k keys f

  pub issue-IsFirst_kept :
      (i : Issuing) (h : String) (k : ApiKey) (keys : List ApiKey)
      → IsFirst h k keys
      → IsFirst h k (issue digest bytes i keys).1
  unfolding issue
  issue-IsFirst_kept i h k keys f = elim (Bool-cases (str_eq i.name "")) [
    | inl e ↦ rw e f
    | inr e ↦ rw e (drawn-IsFirst_kept i i.random h k keys f)
  ]

  new_key-IsFirst :
      (i : Issuing) (hex : String) (id : Bytes) (keys : List ApiKey)
      → IsFirst
          (digest (String.◌++◌ "mb_" hex))
          (new_key digest bytes i hex id)
          (new_key digest bytes i hex id ∷ keys)
  unfolding new_key
  new_key-IsFirst i hex id keys =
      let self = str_eq_refl (digest (String.◌++◌ "mb_" hex)) in (rw self refl, λ now. refl)

  inserted_key-IsFirst :
      (i : Issuing) (hex : String) (id : Result Bytes) (k : ApiKey) (plain : String)
      (keys : List ApiKey)
      → (inserted_key digest bytes i hex id keys).0 ≡ ok (k, plain)
      → IsFirst (digest plain) k (inserted_key digest bytes i hex id keys).1
  inserted_key-IsFirst i hex (err e) k plain keys g = ground (arith, g)
  inserted_key-IsFirst i hex (ok id) k plain keys g =
      let x = new_key digest bytes i hex id in
      elim (Bool-cases (has_hash x.key_hash keys)) [
        | inl e ↦ (let bad = rw e at g in ground (arith, bad))
        | inr e ↦
            let same : Path (ApiKey × String) (x, String.◌++◌ "mb_" hex) (k, plain) =
              ok_inj (rw e at g) in
            rw e (
              subst (λ (q : ApiKey × String). IsFirst (digest q.1) q.0 (x ∷ keys)) same
                (new_key-IsFirst i hex id keys))
      ]

  drawn-IsFirst :
      (i : Issuing) (hex : Result String) (k : ApiKey) (plain : String) (keys : List ApiKey)
      → (drawn digest bytes i hex keys).0 ≡ ok (k, plain)
      → IsFirst (digest plain) k (drawn digest bytes i hex keys).1
  drawn-IsFirst i (err e) k plain keys g = ground (arith, g)
  drawn-IsFirst i (ok hex) k plain keys g = inserted_key-IsFirst i hex i.inserted k plain keys g

  pub issue-IsFirst :
      (i : Issuing) (k : ApiKey) (plain : String) (keys : List ApiKey)
      → (issue digest bytes i keys).0 ≡ ok (k, plain)
      → IsFirst (digest plain) k (issue digest bytes i keys).1
  unfolding issue
  issue-IsFirst i k plain keys g = elim (Bool-cases (str_eq i.name "")) [
    | inl e ↦ (let bad = rw e at g in ground (arith, bad))
    | inr e ↦ rw e (drawn-IsFirst i i.random k plain keys (rw e at g))
  ]
