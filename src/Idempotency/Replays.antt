-- ===== src/Idempotency/Replays.antt =====
-- What repeating a request comes to.
use meeting_baa_s.Base.{
  ◌≡◌, refl, ◌==◌, ℕ, String, true, false, none, some, Result, ok, err, Failure, ap, ◌∙◌,
  str_eq_refl, List, [], ◌∷◌, map, All,
}
use meeting_baa_s.Idempotency.{
  Row, Table, put, begin_request, complete_request, cast_body, body_of, capture, new_capture,
  Request, Response, Outside, refused, replayed, passes_by, after_begin, idempotency, first_hit,
  new_row, stored_hit, set_response,
}

pub put_same :
    (tenant key : String) (row : Row) (table : Table)
    → put tenant key row table tenant key ≡ some row
unfolding put
put_same tenant key row table = rw (str_eq_refl tenant, str_eq_refl key) refl

pub set_response-same :
    (tenant key : String) (status : ℕ) (text : String) (row : Row) (table : Table)
    → table tenant key ≡ some row
    → set_response status text tenant key table tenant key
      ≡ some (record row { response_status = some status; response_body = some text })
unfolding set_response
set_response-same tenant key status text row table h =
    rw (h, set_response)
      (put_same tenant key (record row { response_status = some status; response_body = some text })
        table)

module _ (jsonb : String → Result String) where
  complete-ok :
      (tenant key : String) (status : ℕ) (body text hash : String) (table : Table)
      → cast_body jsonb body ≡ ok text
      → (complete_request jsonb none tenant key status body (put tenant key (new_row hash) table)).1
          tenant key
        ≡ some (record {
          request_hash = hash;
          response_status = some status;
          response_body = some text;
        })
  unfolding complete_request
  complete-ok tenant key status body text hash table h =
      rw (h, complete_request)
        (set_response-same tenant key status text (new_row hash)
          (put tenant key (new_row hash) table) (put_same tenant key (new_row hash) table))

  complete-err :
      (tenant key : String) (status : ℕ) (body e : String) (table : Table)
      → cast_body jsonb body ≡ err e
      → (complete_request jsonb none tenant key status body table).1 ≡ table
  unfolding complete_request
  complete-err tenant key status body e table h = rw (h, complete_request) refl

pub begin-first :
    (select : Failure) (tenant key hash : String) (table : Table)
    → table tenant key ≡ none
    → begin_request none select tenant key hash table
      ≡ (ok first_hit, put tenant key (new_row hash) table)
unfolding begin_request
begin-first select tenant key hash table h = rw (h, begin_request) refl

begin-again :
    (tenant key hash : String) (table : Table) (row : Row)
    → table tenant key ≡ some row
    → begin_request none none tenant key hash table ≡ (ok (stored_hit hash row), table)
unfolding begin_request
begin-again tenant key hash table row h = rw (h, begin_request) refl

-- A request that the middleware guards, to a server with a repository.
abbrev pub IsGuarded : Request → String → Type 0
IsGuarded r body = (passes_by true r ≡ false) × (r.body ≡ ok body)

module _ (sha256 : String → String) (jsonb : String → Result String) where
  pub guarded :
      (out : Outside) (r : Request) (body : String) (table : Table)
      → IsGuarded r body
      → idempotency sha256 jsonb true out r table
        ≡ after_begin jsonb out r
            (begin_request out.insert out.select r.tenant r.key (sha256 body) table)
  unfolding idempotency
  guarded out r body table (g, b) = rw (g, b, idempotency) refl

  pub again :
      (out : Outside) (r : Request) (body : String) (row : Row) (table : Table)
      → IsGuarded r body
      → out.insert ≡ none
      → out.select ≡ none
      → table r.tenant r.key ≡ some row
      → idempotency sha256 jsonb true out r table
        ≡ after_begin jsonb out r (ok (stored_hit (sha256 body) row), table)
  again out r body row table g i s h =
      guarded out r body table g
      ∙ rw (i, s, begin-again r.tenant r.key (sha256 body) table row h) refl

  pub first_table :
      (out : Outside) (r : Request) (body : String) (table : Table)
      → IsGuarded r body
      → out.insert ≡ none
      → table r.tenant r.key ≡ none
      → idempotency sha256 jsonb true out r table
        ≡ after_begin jsonb out r (ok first_hit, put r.tenant r.key (new_row (sha256 body)) table)
  first_table out r body table g i h =
      guarded out r body table g
      ∙ rw (i, begin-first out.select r.tenant r.key (sha256 body) table h) refl

  -- The table behind a first request whose statements reach the database.
  first_stored :
      (out : Outside) (r : Request) (body : String) (table : Table)
      → IsGuarded r body
      → table r.tenant r.key ≡ none
      → out.insert ≡ none
      → out.update ≡ none
      → let c = capture out.handler new_capture in
        (idempotency sha256 jsonb true out r table).1
        ≡ (complete_request jsonb none r.tenant r.key c.status c.body
            (put r.tenant r.key (new_row (sha256 body)) table)).1
  unfolding after_begin
  first_stored out r body table g free i u =
      ap (λ p. p.1) (first_table out r body table g i free) ∙ rw u refl

  answer_stored :
      (out : Outside) (r : Request) (hash : String) (status : ℕ) (text : String) (table : Table)
      → status == 0 ≡ false
      → after_begin jsonb out r (
        ok (
            stored_hit hash (record {
              request_hash = hash;
              response_status = some status;
              response_body = some text;
            })),
        table,
      )
        ≡ (replayed status (body_of text), table)
  unfolding after_begin
  answer_stored out r hash status text table z = rw (str_eq_refl hash, z) refl

  pub answer_pending :
      (out : Outside) (r : Request) (hash : String) (table : Table)
      → after_begin jsonb out r (ok (stored_hit hash (new_row hash)), table)
        ≡ (refused 409 "CONFLICT", table)
  unfolding after_begin
  answer_pending out r hash table = rw (str_eq_refl hash) refl

  -- When the same request comes again after its response was stored, the handler does not run: the
  -- client gets the stored status and the body as PostgreSQL prints it, and the table stays.
  pub idempotency_replays :
      (out out' : Outside) (r : Request) (body text : String) (table : Table)
      → IsGuarded r body
      → table r.tenant r.key ≡ none
      → out.insert ≡ none
      → out.update ≡ none
      → cast_body jsonb (capture out.handler new_capture).body ≡ ok text
      → (capture out.handler new_capture).status == 0 ≡ false
      → out'.insert ≡ none
      → out'.select ≡ none
      → let t = (idempotency sha256 jsonb true out r table).1 in
        idempotency sha256 jsonb true out' r t
        ≡ (replayed (capture out.handler new_capture).status (body_of text), t)
  idempotency_replays out out' r body text table g free i u b z i' s' =
      let c = capture out.handler new_capture in
      let hash = sha256 body in
      let row : Row = record {
        request_hash = hash;
        response_status = some c.status;
        response_body = some text;
      } in
      let t = (idempotency sha256 jsonb true out r table).1 in
      let stored : t r.tenant r.key ≡ some row =
        ap (λ u. u r.tenant r.key) (first_stored out r body table g free i u)
        ∙ complete-ok jsonb r.tenant r.key c.status c.body text hash table b in
      again out' r body row t g i' s' stored ∙ answer_stored out' r hash c.status text t z

  -- The answers to one request that comes again and again, and the table behind them.
  unfoldable pub repeated : List Outside → Request → Table → List Response × Table
  repeated [] r table = ([], table)
  repeated (out ∷ outs) r table =
      let (answer, after) = idempotency sha256 jsonb true out r table in
      let (answers, last) = repeated outs r after in (answer ∷ answers, last)

  repeated-pending :
      (outs : List Outside) (r : Request) (body : String) (table : Table)
      → IsGuarded r body
      → All (λ o. (o.insert ≡ none) × (o.select ≡ none)) outs
      → table r.tenant r.key ≡ some (new_row (sha256 body))
      → repeated outs r table ≡ (map (λ o. refused 409 "CONFLICT") outs, table)
  unfolding repeated
  repeated-pending [] r body table g a stored = refl
  repeated-pending (out ∷ outs) r body table g ((i, s), a) stored =
      let hash = sha256 body in
      let first =
        again out r body (new_row hash) table g i s stored ∙ answer_pending out r hash table in
      rw (first, repeated-pending outs r body table g a stored) refl

  -- When the stored body is not JSON for PostgreSQL, the response is not stored although the client
  -- has it, and the same request is refused with 409 however often it comes next, with the table as
  -- it was left, where the statements of these requests reach the database.
  pub idempotency_sticks :
      (out : Outside) (outs : List Outside) (r : Request) (body e : String) (table : Table)
      → IsGuarded r body
      → table r.tenant r.key ≡ none
      → out.insert ≡ none
      → out.update ≡ none
      → cast_body jsonb (capture out.handler new_capture).body ≡ err e
      → All (λ o. (o.insert ≡ none) × (o.select ≡ none)) outs
      → let t = (idempotency sha256 jsonb true out r table).1 in
        repeated outs r t ≡ (map (λ o. refused 409 "CONFLICT") outs, t)
  idempotency_sticks out outs r body e table g free i u b a =
      let c = capture out.handler new_capture in
      let hash = sha256 body in
      let t = (idempotency sha256 jsonb true out r table).1 in
      let pending = put r.tenant r.key (new_row hash) table in
      let stored : t r.tenant r.key ≡ some (new_row hash) =
        ap (λ u. u r.tenant r.key)
          (first_stored out r body table g free i u
            ∙ complete-err jsonb r.tenant r.key c.status c.body e pending b)
        ∙ put_same r.tenant r.key (new_row hash) table in
      repeated-pending outs r body t g a stored
