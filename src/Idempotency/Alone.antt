-- ===== src/Idempotency/Alone.antt =====
-- A request whose steps no other request interrupts.
use meeting_baa_s.Base.{
  ◌≡◌, refl, sym, ap, ◌∙◌, inl, inr, String, true, [], ◌∷◌, Result, ok, err, Bool-cases,
  Option-cases, if_true, if_false,
}
use meeting_baa_s.Idempotency.{
  Table, Request, Outside, Response, passes_by, idempotency, begin_request, after_begin,
  idempotent_read,
}
use meeting_baa_s.Idempotency.Concurrent.{
  Stage, done, new_client, insert_row, select_row, complete_row, arrive, advance, advance_at,
  run_schedule, read,
}

module _ (sha256 : String → String) (jsonb : String → Result String) (out : Outside)
    (r : Request) where
  abbrev next : Stage × Table → Stage × Table
  next (stage, table) = advance sha256 jsonb out r stage table

  abbrev finished : Response × Table → Stage × Table
  finished (response, table) = (done response, table)

  next-insert :
      (hash : String) (table : Table)
      → next (insert_row out r hash table)
        ≡ finished (
            after_begin jsonb out r (begin_request out.insert out.select r.tenant r.key hash table))
  unfolding insert_row advance begin_request after_begin select_row complete_row
  next-insert hash table = elim (Option-cases out.insert) [
    | inr (e, s) ↦ rw (s, insert_row, begin_request) refl
    | inl s ↦ elim (Option-cases (table r.tenant r.key)) [
      | inl t ↦ rw (s, t, insert_row, begin_request) refl
      | inr (row, t) ↦ elim (Option-cases out.select) [
        | inl l ↦ rw (s, t, l, insert_row, begin_request, select_row) (rw t refl)
        | inr (e, l) ↦ rw (s, t, l, insert_row, begin_request, select_row) refl
      ]
    ]
  ]

  next-read :
      (body : Result String) (table : Table)
      → next (read sha256 jsonb out r body table)
        ≡ finished (idempotent_read sha256 jsonb out r body table)
  unfolding advance
  next-read (err e) table = refl
  next-read (ok body) table = next-insert (sha256 body) table

  next-arrive :
      (table : Table)
      → next (arrive sha256 jsonb out r table)
        ≡ finished (idempotency sha256 jsonb true out r table)
  unfolding arrive idempotency advance
  next-arrive table = elim (Bool-cases (passes_by true r)) [
    | inl p ↦ ap next (if_true _ _ p) ∙ ap finished (sym (if_true _ _ p))
    | inr p ↦ ap next (if_false _ _ p) ∙ next-read r.body table ∙ ap finished (sym (if_false _ _ p))
  ]

  -- A request whose steps come one behind the other has its answer at the second, and it and the table
  -- are what the middleware gives.
  run_schedule-alone :
      (table : Table)
      → let (response, after) = idempotency sha256 jsonb true out r table in
        run_schedule sha256 jsonb (0 ∷ 0 ∷ []) (new_client (out, r) ∷ []) table
        ≡ (record (new_client (out, r)) { stage = done response } ∷ [], after)
  unfolding run_schedule advance_at advance
  run_schedule-alone table =
      ap (λ p. (record (new_client (out, r)) { stage = p.0 } ∷ [], p.1)) (next-arrive table)
