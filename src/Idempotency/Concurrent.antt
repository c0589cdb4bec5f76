-- ===== src/Idempotency/Concurrent.antt =====
-- Requests under way at the same time: each is at a stage of the middleware, a step is one statement
-- of the database or the run of the handler, and a schedule says whose step is next.
use meeting_baa_s.Base.{
  ℕ, zero, suc, String, Bool, true, false, none, some, List, [], ◌∷◌, Result, ok, err,
  if◌then◌else◌,
}
use meeting_baa_s.Idempotency.{
  Table, put, new_row, stored_hit, complete_request, capture, new_capture, Request, Outside,
  Response, handled, refused, passes_by, replay,
}

-- Behind a conflict of the key the row is still to be read; `handling` holds the key.
pub data Stage : Type 0 where
  fresh : Stage
  selecting : (hash : String) → Stage
  handling : Stage
  done : (response : Response) → Stage

pub record Client : Type 0 where
  pub outside : Outside
  pub request : Request
  pub stage : Stage

abbrev pub new_client : Outside × Request → Client
new_client (out, r) = record { outside = out; request = r; stage = fresh }

-- INSERT ... ON CONFLICT DO NOTHING.
unfoldable pub insert_row : Outside → Request → String → Table → Stage × Table
insert_row out r hash table = elim out.insert [
  | some e ↦ (done (refused 500 "INTERNAL"), table)
  | none ↦ elim (table r.tenant r.key) [
    | none ↦ (handling, put r.tenant r.key (new_row hash) table)
    | some row ↦ (selecting hash, table)
  ]
]

-- SELECT of the row that was in the way; without one the scan fails.
unfoldable pub select_row : Outside → Request → String → Table → Stage × Table
select_row out r hash table = elim out.select [
  | some e ↦ (done (refused 500 "INTERNAL"), table)
  | none ↦ elim (table r.tenant r.key) [
    | none ↦ (done (refused 500 "INTERNAL"), table)
    | some row ↦ (done (replay (stored_hit hash row)), table)
  ]
]

module _ (sha256 : String → String) (jsonb : String → Result String) where
  -- The handler's own response, and its storing.
  unfoldable pub complete_row : Outside → Request → Table → Stage × Table
  complete_row out r table =
      let c = capture out.handler new_capture in
      (
        done (handled out.handler),
        (complete_request jsonb out.update r.tenant r.key c.status c.body table).1,
      )

  abbrev pub read : Outside → Request → Result String → Table → Stage × Table
  read out r (err e) table = (done (refused 400 "INVALID_PARAMETERS"), table)
  read out r (ok body) table = insert_row out r (sha256 body) table

  unfoldable pub arrive : Outside → Request → Table → Stage × Table
  arrive out r table =
      if passes_by true r then (done (handled out.handler), table) else read out r r.body table

  unfoldable pub advance : Outside → Request → Stage → Table → Stage × Table
  advance out r fresh table = arrive out r table
  advance out r (selecting hash) table = select_row out r hash table
  advance out r handling table = complete_row out r table
  advance out r (done response) table = (done response, table)

  unfoldable pub advance_at : ℕ → List Client → Table → List Client × Table
  advance_at i [] table = ([], table)
  advance_at zero (c ∷ cs) table =
      let (stage, after) = advance c.outside c.request c.stage table in
      (record c { stage = stage } ∷ cs, after)
  advance_at (suc i) (c ∷ cs) table = let (cs', after) = advance_at i cs table in (c ∷ cs', after)

  unfoldable pub run_schedule : List ℕ → List Client → Table → List Client × Table
  run_schedule [] cs table = (cs, table)
  run_schedule (i ∷ is) cs table =
      let (cs', after) = advance_at i cs table in run_schedule is cs' after

-- The handler runs for the client, or has run.
abbrev pub holds : Stage → Bool
holds handling = true
holds (done (handled ws)) = true
holds _ = false

unfoldable pub holders : List Client → ℕ
holders [] = 0
holders (c ∷ cs) = let n = holders cs in if holds c.stage then suc n else n
