-- ===== src/Api/Server/Serving.antt =====
-- Which requests reach a handler.
use meeting_baa_s.Base.{◌≡◌, refl, ◌⊎◌, inl, inr, String, Bool, true, false, Result, Bool-cases}
use meeting_baa_s.Api.{Response}
use meeting_baa_s.Api.Access.{ApiKeyRow, Bytes, Cache}
use meeting_baa_s.Api.Access.Auth.{Library, Passage, admitted, rejected, auth}
use meeting_baa_s.Api.Access.Limits.{Counters, Verdict, passed, limited, has_passed, rate_limit}
use meeting_baa_s.Api.Server.{
  V2Request, Server, Outcome, Answer, denied, answered, crashed, hit_of, finish, claim, respond,
  reach, limit_rate, authorise, serve,
}
use meeting_baa_s.Idempotency.{Table, idempotency}
use meeting_baa_s.Idempotency

-- The handler ran for the answer.
abbrev pub is_run : Answer → Bool
is_run (answered (Idempotency.handled ws)) = true
is_run (crashed ws response) = true
is_run _ = false

module _ {ℓ} {S : Type ℓ} (lib : Library) (text : Bytes → String) (sha256 : String → String)
    (jsonb : String → Result String) (handle : V2Request → ApiKeyRow → S → Outcome × S)
    (has_redis has_postgres : Bool) where
  -- The handler ran, on the data, or it did not and the data stays; the counters stay.
  abbrev IsReached : S → S → Server S → Answer × Server S → Type ℓ
  IsReached before after st p =
      (((is_run p.0 ≡ true) × (p.1.data_of ≡ after))
        ⊎ ((is_run p.0 ≡ false) × (p.1.data_of ≡ before)))
      × (p.1.counters ≡ st.counters)

  finish-IsReached :
      (ran : Outcome × S) (begun : Table) (r : Idempotency.Response × Table) (st : Server S)
      → IsReached st.data_of ran.1 st
          (finish lib text sha256 jsonb handle has_redis has_postgres ran begun r st)
  finish-IsReached (o, after) begun (Idempotency.handled ws, table) st =
      elim (Bool-cases o.panicked) [
        | inl e ↦ rw e (inl (refl, refl), refl)
        | inr e ↦ rw e (inl (refl, refl), refl)
      ]
  finish-IsReached (o, after) begun (Idempotency.refused status code, table) st =
      (inr (refl, refl), refl)
  finish-IsReached (o, after) begun (Idempotency.replayed status body, table) st =
      (inr (refl, refl), refl)

  reach-IsReached :
      (q : V2Request) (row : ApiKeyRow) (st : Server S)
      → IsReached st.data_of
          (handle q row st.data_of).1
          st
          (reach lib text sha256 jsonb handle has_redis has_postgres q row st)
  unfolding reach
  reach-IsReached q row st =
      let ran = handle q row st.data_of in
      finish-IsReached ran
        (claim lib text sha256 jsonb handle has_redis has_postgres q row st.table)
        (respond lib text sha256 jsonb handle has_redis has_postgres q row ran.0.writes st.table) st

  -- The key's request passed its rate, and the rest.
  abbrev IsCounted : V2Request → ApiKeyRow → Server S → Answer × Server S → Type ℓ
  IsCounted q row st p =
      let rate = rate_limit has_redis (hit_of text q row) st.counters in
      (((is_run p.0 ≡ true)
          × (has_passed rate.0 ≡ true)
          × (p.1.data_of ≡ (handle q row st.data_of).1))
        ⊎ ((is_run p.0 ≡ false) × (p.1.data_of ≡ st.data_of)))
      × (p.1.counters ≡ rate.1)

  limit_rate-IsReached :
      (q : V2Request) (row : ApiKeyRow) (v : Verdict) (counters : Counters) (st : Server S)
      → let p =
          limit_rate lib text sha256 jsonb handle has_redis has_postgres q row (v, counters) st in
        (((is_run p.0 ≡ true) × (has_passed v ≡ true) × (p.1.data_of ≡ (handle q row st.data_of).1))
          ⊎ ((is_run p.0 ≡ false) × (p.1.data_of ≡ st.data_of)))
        × (p.1.counters ≡ counters)
  limit_rate-IsReached q row (limited s) counters st = (inr (refl, refl), refl)
  limit_rate-IsReached q row (passed left) counters st =
      let (d, c) = reach-IsReached q row (record st { counters = counters }) in
      elim d [ inl (r, e) ↦ (inl (r, refl, e), c) | inr (r, e) ↦ (inr (r, e), c) ]

  -- Without an admitted key no handler runs, and the data, the counters and the table stay.
  pub data IsServed (q : V2Request) (st : Server S) (p : Answer × Server S) : Type ℓ where
    turned_away :
        (response : Response String)
        → (auth lib has_redis has_postgres q.lookup q.headers st.cache).0 ≡ rejected response
        → p.0 ≡ denied response
        → p.1.data_of ≡ st.data_of
        → p.1.counters ≡ st.counters
        → p.1.table ≡ st.table
        → IsServed q st p
    let_in :
        (row : ApiKeyRow)
        → (auth lib has_redis has_postgres q.lookup q.headers st.cache).0 ≡ admitted row
        → IsCounted q row st p
        → IsServed q st p

  authorise-IsServed :
      (q : V2Request) (passage : Passage) (cache : Cache) (st : Server S)
      → (auth lib has_redis has_postgres q.lookup q.headers st.cache).0 ≡ passage
      → IsServed q st
          (authorise lib text sha256 jsonb handle has_redis has_postgres q (passage, cache) st)
  authorise-IsServed q (rejected response) cache st e = turned_away response e refl refl refl refl
  authorise-IsServed q (admitted row) cache st e =
      let rate = rate_limit has_redis (hit_of text q row) st.counters in
      let_in row e (limit_rate-IsReached q row rate.0 rate.1 (record st { cache = cache }))

  -- Either Auth turned the request away, whose answer the client gets, and the handlers' data, the
  -- counters and the table of idempotency keys stay; or the request has an admitted key, which counts it,
  -- and the handler runs, on the data as they are, only where the key's rate lets it pass, and
  -- otherwise the data stay.
  pub serve-IsServed :
      (q : V2Request) (st : Server S)
      → IsServed q st (serve lib text sha256 jsonb handle has_redis has_postgres q st)
  unfolding serve
  serve-IsServed q st =
      let p = auth lib has_redis has_postgres q.lookup q.headers st.cache in
      authorise-IsServed q p.0 p.1 st refl
