-- ===== src/Idempotency/Interleaved.antt =====
-- How often the handler runs for one key, whichever way the requests under it interleave.
use meeting_baa_s.Base.{
  ◌≡◌, refl, sym, ap, ◌∙◌, ◌≤◌, ◌⊎◌, inl, inr, ℕ, zero, suc, String, Bool, true, false, List, [],
  ◌∷◌, map, Result, arith, is_some, All, Bool-cases, Option-cases, if◌then◌else◌, if_false, ◌==◌,
}
use meeting_baa_s.Idempotency.{
  Table, new_row, stored_hit, IdempotencyHit, capture, new_capture, Request, Outside, replay,
}
use meeting_baa_s.Idempotency.Concurrent.{
  Stage, fresh, selecting, handling, done, Client, new_client, insert_row, select_row, complete_row,
  arrive, advance, advance_at, run_schedule, read, holds, holders,
}
use meeting_baa_s.Idempotency.Replays.{IsGuarded, put_same}
use meeting_baa_s.Idempotency.Once.{taken, is_taken, complete-taken, IsUnder}

-- A slot that was taken stays so, and a request comes to hold it only when it was free.
abbrev KeyEffect : Bool → Bool → Bool → Bool → Type 0
KeyEffect before after held holds =
    (before ≡ true → after ≡ true)
    × ((holds ≡ held) ⊎ ((held ≡ false) × (holds ≡ true) × (before ≡ false) × (after ≡ true)))

abbrev StepEffect : Request → Stage → Table → Stage × Table → Type 0
StepEffect r stage table p = KeyEffect (taken r table) (taken r p.1) (holds stage) (holds p.0)

not_held : (hit : IdempotencyHit) → holds (done (replay hit)) ≡ false
not_held hit = elim (Bool-cases hit.hash_match) [
  | inl h ↦ elim (Bool-cases (hit.status == 0)) [ inl z ↦ rw (h, z) refl | inr z ↦ rw (h, z) refl ]
  | inr h ↦ rw h refl
]

select_row-effect :
    (out : Outside) (r : Request) (hash : String) (table : Table)
    → StepEffect r (selecting hash) table (select_row out r hash table)
unfolding select_row
select_row-effect out r hash table = elim (Option-cases out.select) [
  | inr (e, s) ↦ rw (s, select_row) (λ h. h, inl refl)
  | inl s ↦ elim (Option-cases (table r.tenant r.key)) [
    | inl t ↦ rw (s, t, select_row) (λ h. absurd cc, inl refl)
    | inr (row, t) ↦ rw (s, t, select_row) (λ h. ap is_some t, inl (not_held (stored_hit hash row)))
  ]
]

insert_row-effect :
    (out : Outside) (r : Request) (hash : String) (table : Table)
    → StepEffect r fresh table (insert_row out r hash table)
unfolding insert_row
insert_row-effect out r hash table = elim (Option-cases out.insert) [
  | inr (e, s) ↦ rw (s, insert_row) (λ h. h, inl refl)
  | inl s ↦ elim (Option-cases (table r.tenant r.key)) [
    | inl t ↦
        let kept = ap is_some (put_same r.tenant r.key (new_row hash) table) in
        rw (s, t, insert_row) (λ h. kept, inr (refl, refl, refl, kept))
    | inr (row, t) ↦ rw (s, t, insert_row) (λ h. ap is_some t, inl refl)
  ]
]

module _ (sha256 : String → String) (jsonb : String → Result String) where
  pub guarded_arrive :
      (out : Outside) (r : Request) (body : String) (table : Table)
      → IsGuarded r body
      → arrive sha256 jsonb out r table ≡ insert_row out r (sha256 body) table
  unfolding arrive
  guarded_arrive out r body table (g, b) =
      if_false _ _ g ∙ ap (λ x. read sha256 jsonb out r x table) b

  advance-effect :
      (out : Outside) (r : Request) (body : String) (stage : Stage) (table : Table)
      → IsGuarded r body
      → StepEffect r stage table (advance sha256 jsonb out r stage table)
  unfolding advance complete_row
  advance-effect out r body fresh table g =
      rw (guarded_arrive out r body table g) (insert_row-effect out r (sha256 body) table)
  advance-effect out r body (selecting hash) table g = select_row-effect out r hash table
  advance-effect out r body handling table g =
      let c = capture out.handler new_capture in
      (complete-taken jsonb out.update r c.status c.body table, inl refl)
  advance-effect out r body (done response) table g = (λ h. h, inl refl)

  module _ (tenant key : String) where
    abbrev IsClient : Client → Type 0
    IsClient c = IsUnder tenant key (c.outside, c.request)

    client-effect :
        (c : Client) (table : Table)
        → IsClient c
        → let p = advance sha256 jsonb c.outside c.request c.stage table in
          KeyEffect
            (is_taken tenant key table)
            (is_taken tenant key p.1)
            (holds c.stage)
            (holds p.0)
    client-effect c table (t, k, (body, g)) =
        rw (sym t, sym k) (advance-effect c.outside c.request body c.stage table g)

    -- What a step does to the number of holders.
    abbrev Grows : Bool → Bool → ℕ → ℕ → Type 0
    Grows before after n n' =
        (before ≡ true → after ≡ true)
        × ((n' ≡ n) ⊎ ((n' ≡ suc n) × (before ≡ false) × (after ≡ true)))

    head-Grows :
        (before after held holds : Bool) (n : ℕ)
        → KeyEffect before after held holds
        → Grows before after (if held then suc n else n) (if holds then suc n else n)
    head-Grows before after held holds n (kept, inl e) = (kept, inl (rw e refl))
    head-Grows before after held holds n (kept, inr (h, h', b, a)) =
        (kept, inr (rw (h, h') refl, b, a))

    tail-Grows :
        (before after held : Bool) (n n' : ℕ)
        → Grows before after n n'
        → Grows before after (if held then suc n else n) (if held then suc n' else n')
    tail-Grows before after false n n' e = e
    tail-Grows before after true n n' (kept, inl e) = (kept, inl (ap suc e))
    tail-Grows before after true n n' (kept, inr (e, b, a)) = (kept, inr (ap suc e, b, a))

    advance_at-Grows :
        (i : ℕ) (cs : List Client) (table : Table)
        → All IsClient cs
        → let p = advance_at sha256 jsonb i cs table in
          All IsClient p.0
          × Grows (is_taken tenant key table) (is_taken tenant key p.1) (holders cs) (holders p.0)
    unfolding advance_at holders
    advance_at-Grows i [] table u = (tt, (λ h. h, inl refl))
    advance_at-Grows zero (c ∷ cs) table (u, us) =
        let p = advance sha256 jsonb c.outside c.request c.stage table in
        ((u, us), head-Grows _ _ (holds c.stage) (holds p.0) (holders cs) (client-effect c table u))
    advance_at-Grows (suc i) (c ∷ cs) table (u, us) =
        let (vs, e) = advance_at-Grows i cs table us in
        ((u, vs), tail-Grows _ _ (holds c.stage) (holders cs) _ e)

    -- At most one request holds the key, and none while its slot is free.
    abbrev IsExclusive : List Client → Table → Type 0
    IsExclusive cs table = (holders cs ≤ 1) × (is_taken tenant key table ≡ false → holders cs ≡ 0)

    step-IsExclusive :
        (before after : Bool) (n n' : ℕ)
        → Grows before after n n'
        → (n ≤ 1) × (before ≡ false → n ≡ 0)
        → (n' ≤ 1) × (after ≡ false → n' ≡ 0)
    step-IsExclusive before after n n' (kept, inl e) (few, free) = (
      omega arith,
      λ a. elim (Bool-cases before) [
        | inl b ↦ absurd (let k = kept b in ground arith)
        | inr b ↦ e ∙ free b
      ],
    )
    step-IsExclusive before after n n' (kept, inr (e, b, a)) (few, free) =
        (ground (arith, free b), λ h. ground arith)

    run_schedule-IsExclusive :
        (is : List ℕ) (cs : List Client) (table : Table)
        → All IsClient cs
        → IsExclusive cs table
        → let p = run_schedule sha256 jsonb is cs table in IsExclusive p.0 p.1
    unfolding run_schedule
    run_schedule-IsExclusive [] cs table u x = x
    run_schedule-IsExclusive (i ∷ is) cs table u x =
        let (vs, e) = advance_at-Grows i cs table u in
        run_schedule-IsExclusive is _ _ vs (step-IsExclusive _ _ _ _ e x)

    new-holders :
        (rs : List (Outside × Request))
        → All (IsUnder tenant key) rs
        → All IsClient (map new_client rs) × (holders (map new_client rs) ≡ 0)
    unfolding holders
    new-holders [] u = (tt, refl)
    new-holders (r ∷ rs) (u, us) = let (vs, e) = new-holders rs us in ((u, vs), e)

    -- Of guarded requests under one key of one tenant whose statements and handlers interleave in any
    -- way, whatever their bodies and whichever statements fail, at most one has the handler run or
    -- running at any time.
    pub holders_bound :
        (rs : List (Outside × Request)) (is : List ℕ) (table : Table)
        → All (IsUnder tenant key) rs
        → holders (run_schedule sha256 jsonb is (map new_client rs) table).0 ≤ 1
    holders_bound rs is table u =
        let (vs, e) = new-holders rs u in
        (run_schedule-IsExclusive is _ table vs (rw e (omega arith, λ h. refl))).0
