-- ===== src/Api/Server.antt =====
-- The API's process: buildRouter of internal/app/apiserver.go, the routes of
-- internal/api/http/v2/router.go, and the middlewares around a handler with recover.go of
-- internal/api/http/middleware. chi finds the route; the handlers are outside, with a state of theirs.
pub mod Panics
pub mod Rates
pub mod Serving
pub mod Wiring
use meeting_baa_s.Base.{
  ℕ, String, Bool, true, false, not, ◌||◌, Option, none, some, List, [], ◌∷◌, Result, ok, err,
  Failure, str_eq, if◌then◌else◌,
}
use meeting_baa_s.Api.{Response, failure, respond_error}
use meeting_baa_s.Api.Access.{ApiKeyRow, Bytes, Cache, Lookup}
use meeting_baa_s.Api.Access.Auth.{Headers, Library, Passage, admitted, rejected, auth}
use meeting_baa_s.Api.Access.Limits.{Counters, Hit, Verdict, passed, limited, rate_limit}
use meeting_baa_s.Idempotency.{Table, Write, begin_request, idempotency, passes_by}
use meeting_baa_s.Idempotency
use Prim.Native.String

-- The endpoints of Mount.
pub data Endpoint : Type 0 where
  create_bot schedule_bot get_bot get_bot_status leave_bot pause_bot resume_bot : Endpoint
  send_chat delete_data usage alerts : Endpoint

abbrev pub route_of : Endpoint → String × String
route_of create_bot = ("POST", "/bots")
route_of schedule_bot = ("POST", "/bots/scheduled")
route_of get_bot = ("GET", "/bots/{bot_id}")
route_of get_bot_status = ("GET", "/bots/{bot_id}/status")
route_of leave_bot = ("POST", "/bots/{bot_id}/leave-bot")
route_of pause_bot = ("POST", "/bots/{bot_id}/pause-recording")
route_of resume_bot = ("POST", "/bots/{bot_id}/resume-recording")
route_of send_chat = ("POST", "/bots/{bot_id}/chat-messages")
route_of delete_data = ("DELETE", "/bots/{bot_id}/delete-data")
route_of usage = ("GET", "/usage")
route_of alerts = ("GET", "/alerts")

-- The group that the Idempotency middleware is used on.
abbrev pub is_grouped : Endpoint → Bool
is_grouped create_bot = true
is_grouped schedule_bot = true
is_grouped _ = false

-- What a handler does: the calls it makes of the writer, and whether it panics behind them.
pub record Outcome : Type 0 where
  pub writes : List Write
  pub panicked : Bool

-- A request whose route is found, with the answers of Redis and PostgreSQL to its middlewares.
pub record V2Request : Type 0 where
  pub endpoint : Endpoint
  pub headers : Headers
  pub idempotency_key : String
  pub body : Result String
  pub now : ℕ
  pub lookup : Lookup
  pub incr : Failure
  pub insert : Failure
  pub select : Failure
  pub update : Failure

pub record Server {ℓ} (S : Type ℓ) : Type ℓ where
  pub cache : Cache
  pub counters : Counters
  pub table : Table
  pub data_of : S

-- What the client gets; `crashed` is what the handler wrote before the panic, with the answer of
-- Recover behind it.
pub data Answer : Type 0 where
  denied : Response String → Answer
  too_many : (retry_after : ℕ) → Answer
  answered : Idempotency.Response → Answer
  crashed : List Write → Response String → Answer

abbrev pub hit_of : (text : Bytes → String) → V2Request → ApiKeyRow → Hit
hit_of text q row = record {
  api_key_id = text row.id;
  limit = row.rate_limit_per_min;
  now = q.now;
  incr = q.incr;
}

module _ {ℓ} {S : Type ℓ} (lib : Library) (text : Bytes → String) (sha256 : String → String)
    (jsonb : String → Result String) (handle : V2Request → ApiKeyRow → S → Outcome × S)
    (has_redis has_postgres : Bool) where
  abbrev pub request_of : V2Request → ApiKeyRow → Idempotency.Request
  request_of q row = record {
    method = (route_of q.endpoint).0;
    key = q.idempotency_key;
    tenant = text row.tenant_id;
    body = q.body;
  }

  abbrev pub outside_of : V2Request → List Write → Idempotency.Outside
  outside_of q writes = record {
    insert = q.insert;
    select = q.select;
    update = q.update;
    handler = writes;
  }

  abbrev pub recovered : Response String
  recovered = respond_error 500 "INTERNAL" "internal server error"

  -- The response without a panic, and the table that a panic leaves, where it is not stored.
  unfoldable pub respond : V2Request → ApiKeyRow → List Write → Table → Idempotency.Response × Table
  respond q row writes table =
      if is_grouped q.endpoint
      then idempotency sha256 jsonb has_postgres (outside_of q writes) (request_of q row) table
      else (Idempotency.handled writes, table)

  abbrev pub claimed : V2Request → Idempotency.Request → Result String → Table → Table
  claimed q r (err e) table = table
  claimed q r (ok body) table =
      (begin_request q.insert q.select r.tenant r.key (sha256 body) table).1

  unfoldable pub claim : V2Request → ApiKeyRow → Table → Table
  claim q row table =
      if not (is_grouped q.endpoint) || passes_by has_postgres (request_of q row)
      then table
      else claimed q (request_of q row) q.body table

  -- The answer of a handler that ran, or that of the middleware before it.
  abbrev pub finish :
      Outcome × S → Table → Idempotency.Response × Table → Server S → Answer × Server S
  finish (o, data') begun (Idempotency.handled ws, table) st =
      if o.panicked
      then (crashed ws recovered, record st { table = begun; data_of = data' })
      else (answered (Idempotency.handled ws), record st { table = table; data_of = data' })
  finish (o, data') begun (Idempotency.refused status code, table) st =
      (answered (Idempotency.refused status code), record st { table = table })
  finish (o, data') begun (Idempotency.replayed status body, table) st =
      (answered (Idempotency.replayed status body), record st { table = table })

  -- Behind Auth and RateLimit.
  unfoldable pub reach : V2Request → ApiKeyRow → Server S → Answer × Server S
  reach q row st =
      let ran = handle q row st.data_of in
      finish ran (claim q row st.table) (respond q row ran.0.writes st.table) st

  abbrev pub limit_rate : V2Request → ApiKeyRow → Verdict × Counters → Server S → Answer × Server S
  limit_rate q row (limited s, counters) st = (too_many s, record st { counters = counters })
  limit_rate q row (passed left, counters) st = reach q row (record st { counters = counters })

  abbrev pub authorise : V2Request → Passage × Cache → Server S → Answer × Server S
  authorise q (rejected response, cache) st = (denied response, record st { cache = cache })
  authorise q (admitted row, cache) st =
      limit_rate q row (rate_limit has_redis (hit_of text q row) st.counters)
        (record st { cache = cache })

  unfoldable pub serve : V2Request → Server S → Answer × Server S
  serve q st = authorise q (auth lib has_redis has_postgres q.lookup q.headers st.cache) st
