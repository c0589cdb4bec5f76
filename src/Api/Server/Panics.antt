-- ===== src/Api/Server/Panics.antt =====
-- What a handler's panic leaves behind.
use meeting_baa_s.Base.{
  ◌≡◌, refl, sym, subst, ap, ◌∙◌, String, Bool, true, not, ◌||◌, List, none, some, Result, if_true,
  if_false,
}
use meeting_baa_s.Api.Access.{ApiKeyRow, Bytes}
use meeting_baa_s.Api.Access.Auth.{Library}
use meeting_baa_s.Api.Server.{
  V2Request, Server, Outcome, answered, is_grouped, request_of, outside_of, respond, claimed, claim,
  finish, reach,
}
use meeting_baa_s.Idempotency.{
  Table, Write, put, new_row, begin_request, after_begin, idempotency, passes_by, first_hit,
}
use meeting_baa_s.Idempotency
use meeting_baa_s.Idempotency.Replays.{
  IsGuarded, put_same, begin-first, first_table, again, answer_pending,
}

module _ {ℓ} {S : Type ℓ} (lib : Library) (text : Bytes → String) (sha256 : String → String)
    (jsonb : String → Result String) (handle : V2Request → ApiKeyRow → S → Outcome × S)
    (has_redis : Bool) where
  abbrev request : V2Request → ApiKeyRow → Idempotency.Request
  request = request_of lib text sha256 jsonb handle has_redis true

  -- The middleware guards the request: its endpoint is in the group, and it has a key, a tenant and
  -- a body.
  abbrev pub IsUnderKey : V2Request → ApiKeyRow → String → Type 0
  IsUnderKey q row body = (is_grouped q.endpoint ≡ true) × IsGuarded (request q row) body

  claim-first :
      (q : V2Request) (row : ApiKeyRow) (body : String) (table : Table)
      → IsUnderKey q row body
      → q.insert ≡ none
      → table (text row.tenant_id) q.idempotency_key ≡ none
      → claim lib text sha256 jsonb handle has_redis true q row table
        ≡ put (text row.tenant_id) q.idempotency_key (new_row (sha256 body)) table
  unfolding claim
  claim-first q row body table (g, (p, b)) i free =
      if_false {b = not (is_grouped q.endpoint) || passes_by true (request q row)} _ _ (rw g p)
      ∙ ap (λ x. claimed lib text sha256 jsonb handle has_redis true q (request q row) x table) b
      ∙ rw i (
          ap (λ x. x.1)
            (begin-first q.select (text row.tenant_id) q.idempotency_key (sha256 body) table free))

  respond-grouped :
      (q : V2Request) (row : ApiKeyRow) (writes : List Write) (table : Table)
      → is_grouped q.endpoint ≡ true
      → respond lib text sha256 jsonb handle has_redis true q row writes table
        ≡ idempotency sha256 jsonb true
            (outside_of lib text sha256 jsonb handle has_redis true q writes)
            (request q row)
            table
  unfolding respond
  respond-grouped q row writes table g = if_true _ _ g

  first_response :
      (q : V2Request) (row : ApiKeyRow) (body : String) (writes : List Write) (table : Table)
      → IsUnderKey q row body
      → q.insert ≡ none
      → table (text row.tenant_id) q.idempotency_key ≡ none
      → (respond lib text sha256 jsonb handle has_redis true q row writes table).0
        ≡ Idempotency.handled writes
  unfolding after_begin
  first_response q row body writes table (g, u) i free =
      let out = outside_of lib text sha256 jsonb handle has_redis true q writes in
      ap (λ x. x.0)
        (respond-grouped q row writes table g
          ∙ first_table sha256 jsonb out (request q row) body table u i free)

  finish-panicked :
      (o : Outcome) (after : S) (begun : Table) (r : Idempotency.Response × Table)
      (writes : List Write) (st : Server S)
      → o.panicked ≡ true
      → r.0 ≡ Idempotency.handled writes
      → (finish lib text sha256 jsonb handle has_redis true (o, after) begun r st).1.table ≡ begun
  finish-panicked o after begun (Idempotency.handled ws, table) writes st p h = rw p refl
  finish-panicked o after begun (Idempotency.refused status code, table) writes st p h = absurd cc
  finish-panicked o after begun (Idempotency.replayed status body, table) writes st p h = absurd cc

  -- A panic of the first request leaves its key taken, without a response.
  panicked_table :
      (q : V2Request) (row : ApiKeyRow) (body : String) (st : Server S)
      → IsUnderKey q row body
      → q.insert ≡ none
      → st.table (text row.tenant_id) q.idempotency_key ≡ none
      → (handle q row st.data_of).0.panicked ≡ true
      → (reach lib text sha256 jsonb handle has_redis true q row st).1.table
        ≡ put (text row.tenant_id) q.idempotency_key (new_row (sha256 body)) st.table
  unfolding reach
  panicked_table q row body st u i free p =
      let (o, after) = handle q row st.data_of in
      finish-panicked o after _
        (respond lib text sha256 jsonb handle has_redis true q row o.writes st.table) o.writes st p
        (first_response q row body o.writes st.table u i free)
      ∙ claim-first q row body st.table u i free

  -- Where the handler panics for the first request under a key, which the middleware guards and which
  -- could be inserted, nothing is stored, and the same request to the group that finds the table as it
  -- was left, and whose statements reach the database, is refused with 409 as if the first were still
  -- in progress, and changes nothing.
  pub panic_sticks :
      (q q' : V2Request) (row row' : ApiKeyRow) (body : String) (st st' : Server S)
      → IsUnderKey q row body
      → q.insert ≡ none
      → st.table (text row.tenant_id) q.idempotency_key ≡ none
      → (handle q row st.data_of).0.panicked ≡ true
      → is_grouped q'.endpoint ≡ true
      → request q' row' ≡ request q row
      → q'.insert ≡ none
      → q'.select ≡ none
      → st'.table ≡ (reach lib text sha256 jsonb handle has_redis true q row st).1.table
      → reach lib text sha256 jsonb handle has_redis true q' row' st'
        ≡ (answered (Idempotency.refused 409 "CONFLICT"), st')
  unfolding reach
  panic_sticks q q' row row' body st st' u i free p g same i' s' t =
      let r = request q row in
      let hash = sha256 body in
      let stored : st'.table r.tenant r.key ≡ some (new_row hash) =
        ap (λ x. x r.tenant r.key) (t ∙ panicked_table q row body st u i free p)
        ∙ put_same r.tenant r.key (new_row hash) st.table in
      let guarded = subst (λ x. IsGuarded x body) (sym same) u.1 in
      let pending = subst (λ x. st'.table x.tenant x.key ≡ some (new_row hash)) (sym same) stored in
      let writes = (handle q' row' st'.data_of).0.writes in
      let out = outside_of lib text sha256 jsonb handle has_redis true q' writes in
      let r' = request q' row' in
      let refusal =
        respond-grouped q' row' writes st'.table g
        ∙ again sha256 jsonb out r' body (new_row hash) st'.table guarded i' s' pending
        ∙ answer_pending sha256 jsonb out r' hash st'.table in
      ap
        (λ x.
          finish lib text sha256 jsonb handle has_redis true (handle q' row' st'.data_of)
            (claim lib text sha256 jsonb handle has_redis true q' row' st'.table) x st')
        refusal
