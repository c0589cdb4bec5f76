-- ===== src/Idempotency/Once.antt =====
-- How often the handler runs for one key.
use meeting_baa_s.Base.{
  ◌≡◌, refl, ◌≤◌, ap, ℕ, suc, String, Bool, true, false, none, some, List, [], ◌∷◌, Result, ok, err,
  Failure, arith, is_some, All, Option-cases, if◌then◌else◌, ◌⊎◌, inl, inr, sym,
}
use meeting_baa_s.Idempotency.{
  Table, put, begin_request, complete_request, cast_body, capture, new_capture, Request, Outside,
  Response, handled, after_begin, idempotency, new_row, set_response,
}
use meeting_baa_s.Idempotency.Replays.{IsGuarded, guarded, put_same, set_response-same}

abbrev pub is_handled : Response → Bool
is_handled (handled ws) = true
is_handled _ = false

abbrev pub taken : Request → Table → Bool
taken r table = is_some (table r.tenant r.key)

set_response-taken :
    (status : ℕ) (text : String) (r : Request) (table : Table)
    → taken r table ≡ true
    → taken r (set_response status text r.tenant r.key table) ≡ true
set_response-taken status text r table h = elim (Option-cases (table r.tenant r.key)) [
  | inl e ↦ cc (h, ap is_some e)
  | inr (row, e) ↦ ap is_some (set_response-same r.tenant r.key status text row table e)
]

Cast-cases : (r : Result String) → ((e : String) × (r ≡ err e)) ⊎ ((text : String) × (r ≡ ok text))
Cast-cases (err e) = inl (e, refl)
Cast-cases (ok text) = inr (text, refl)

pub complete-taken :
    (jsonb : String → Result String) (update : Failure) (r : Request) (status : ℕ) (body : String)
    (table : Table)
    → taken r table ≡ true
    → taken r (complete_request jsonb update r.tenant r.key status body table).1 ≡ true
unfolding complete_request
complete-taken jsonb (some e) r status body table h = h
complete-taken jsonb none r status body table h = elim (Cast-cases (cast_body jsonb body)) [
  | inl (e, c) ↦ rw (c, complete_request) h
  | inr (text, c) ↦ rw (c, complete_request) (set_response-taken status text r table h)
]

-- What one request does to the slot of its key.
abbrev Takes : Request → Table → Response × Table → Type 0
Takes r table (response, after) =
    (is_handled response ≡ true → (taken r table ≡ false) × (taken r after ≡ true))
    × (taken r table ≡ true → taken r after ≡ true)

begin-Takes :
    (jsonb : String → Result String) (out : Outside) (r : Request) (hash : String) (table : Table)
    → Takes r table
        (after_begin jsonb out r (begin_request out.insert out.select r.tenant r.key hash table))
unfolding begin_request after_begin
begin-Takes jsonb out r hash table = elim (Option-cases out.insert) [
  | inr (e, i) ↦ rw (i, begin_request) (λ h. cc, λ h. h)
  | inl i ↦ elim (Option-cases (table r.tenant r.key)) [
    | inl free ↦
        let c = capture out.handler new_capture in
        let t = put r.tenant r.key (new_row hash) table in
        let kept =
          complete-taken jsonb out.update r c.status c.body t
            (ap is_some (put_same r.tenant r.key (new_row hash) table)) in
        rw (i, free, begin_request) (λ h. (refl, kept), λ h. kept)
    | inr (row, e) ↦ elim (Option-cases out.select) [
      | inr (m, s) ↦ rw (i, e, s, begin_request) (λ h. cc, λ h. ap is_some e)
      | inl s ↦ rw (i, e, s, begin_request) (λ h. ground arith, λ h. ap is_some e)
    ]
  ]
]

-- The requests one after the other; the number of those that the handler ran for.
unfoldable pub handled_count :
    (String → String) → (String → Result String) → List (Outside × Request) → Table → ℕ
handled_count sha256 jsonb [] table = 0
handled_count sha256 jsonb ((out, r) ∷ rest) table =
    let (response, after) = idempotency sha256 jsonb true out r table in
    let count = handled_count sha256 jsonb rest after in
    if is_handled response then suc count else count

-- A request under one key of one tenant that the middleware guards.
abbrev pub IsUnder : String → String → Outside × Request → Type 0
IsUnder tenant key (out, r) =
    (r.tenant ≡ tenant) × (r.key ≡ key) × ((body : String) × IsGuarded r body)

abbrev pub is_taken : String → String → Table → Bool
is_taken tenant key table = is_some (table tenant key)

module _ (sha256 : String → String) (jsonb : String → Result String) (tenant key : String) where
  under-Takes :
      (out : Outside) (r : Request) (table : Table)
      → IsUnder tenant key (out, r)
      → let p = idempotency sha256 jsonb true out r table in
        (is_handled p.0 ≡ true
          → (is_taken tenant key table ≡ false) × (is_taken tenant key p.1 ≡ true))
        × (is_taken tenant key table ≡ true → is_taken tenant key p.1 ≡ true)
  under-Takes out r table (t, k, (body, g)) =
      rw (sym t, sym k, guarded sha256 jsonb out r body table g)
        (begin-Takes jsonb out r (sha256 body) table)

  count_bound :
      (rs : List (Outside × Request)) (table : Table)
      → All (IsUnder tenant key) rs
      → (handled_count sha256 jsonb rs table ≤ 1)
        × (is_taken tenant key table ≡ true → handled_count sha256 jsonb rs table ≡ 0)
  unfolding handled_count
  count_bound [] table u = (omega arith, λ h. refl)
  count_bound ((out, r) ∷ rs) table (u, us) =
      let p = idempotency sha256 jsonb true out r table in
      let (first, later) = under-Takes out r table u in
      let (few, zero_after) = count_bound rs p.1 us in (ground arith, λ h. ground arith)

  -- Of any sequence of guarded requests under one key of one tenant, whatever their bodies and
  -- whichever statements of the database fail, the handler runs for one at most.
  handled_count_bound :
      (rs : List (Outside × Request)) (table : Table)
      → All (IsUnder tenant key) rs
      → handled_count sha256 jsonb rs table ≤ 1
  handled_count_bound rs table u = (count_bound rs table u).0
