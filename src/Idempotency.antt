-- ===== src/Idempotency.antt =====
-- The Idempotency-Key of the API: internal/api/http/middleware/idempotency.go over the statements of
-- internal/infra/storage/postgres/idempotency_repo.go. SHA-256, the JSON of PostgreSQL and the
-- wrapped handler are outside. A row stays for good: `SweepExpired` is not called by the server.
pub mod Alone
pub mod Concurrent
pub mod Interleaved
pub mod Once
pub mod Replays
use meeting_baa_s.Base.{
  ℕ, String, Bool, true, false, not, ◌&&◌, ◌||◌, ◌==◌, Option, none, some, List, [], ◌∷◌, Result,
  ok, err, Failure, str_eq, if◌then◌else◌, is_some,
}
use Prim.Native.String

pub record Row : Type 0 where
  pub request_hash : String
  pub response_status : Option ℕ
  pub response_body : Option String

-- The table idempotency_keys, by its primary key: the tenant and the key.
abbrev pub Table : Type 0
Table = String → String → Option Row

unfoldable pub put : String → String → Row → Table → Table
put tenant key row table t k = if str_eq t tenant && str_eq k key then some row else table t k

pub record IdempotencyHit : Type 0 where
  pub is_first : Bool
  pub hash_match : Bool
  pub status : ℕ
  pub body : String

abbrev pub coalesce {ℓ} : {A : Type ℓ} → A → Option A → A
coalesce default none = default
coalesce default (some a) = a

abbrev pub first_hit : IdempotencyHit
first_hit = record { is_first = true; hash_match = true; status = 0; body = "" }

abbrev pub body_of : String → String
body_of text = if str_eq text "null" then "" else text

abbrev pub stored_hit : String → Row → IdempotencyHit
stored_hit hash row = record {
  is_first = false;
  hash_match = str_eq row.request_hash hash;
  status = coalesce 0 row.response_status;
  body = body_of (coalesce "null" row.response_body);
}

abbrev pub new_row : String → Row
new_row hash = record { request_hash = hash; response_status = none; response_body = none }

-- `insert` and `select` are the errors of the two statements, beside the conflict of the key.
unfoldable pub begin_request :
    (insert select : Failure) → (tenant key hash : String) → Table → Result IdempotencyHit × Table
begin_request (some e) select tenant key hash table =
    (err (String.◌++◌ "idempotency_repo: insert: " e), table)
begin_request none select tenant key hash table = elim (table tenant key) [
  | none ↦ (ok first_hit, put tenant key (new_row hash) table)
  | some row ↦ elim select [
    | some e ↦ (err (String.◌++◌ "idempotency_repo: select: " e), table)
    | none ↦ (ok (stored_hit hash row), table)
  ]
]

-- `jsonb` is the cast of PostgreSQL: the text it prints for a value, or its error.
abbrev pub cast_body : (String → Result String) → String → Result String
cast_body jsonb body = if str_eq body "" then ok "null" else jsonb body

unfoldable pub set_response : ℕ → String → String → String → Table → Table
set_response status text tenant key table = elim (table tenant key) [
  | none ↦ table
  | some row ↦
      put tenant key (record row { response_status = some status; response_body = some text }) table
]

-- `update` is the error of the statement, beside that of the cast.
unfoldable pub complete_request :
    (String → Result String)
    → (update : Failure) → (tenant key : String) → ℕ
    → String
    → Table
    → Failure × Table
complete_request jsonb (some e) tenant key status body table =
    (some (String.◌++◌ "idempotency_repo: complete: " e), table)
complete_request jsonb none tenant key status body table = elim (cast_body jsonb body) [
  | err e ↦ (some (String.◌++◌ "idempotency_repo: complete: " e), table)
  | ok text ↦ (none, set_response status text tenant key table)
]

-- A call of the writer that the handler is given.
pub data Write : Type 0 where
  header : (status : ℕ) → Write
  bytes : (text : String) → Write

-- `capturingWriter`, and the calls that it has passed on, newest first.
pub record CapturingWriter : Type 0 where
  pub status : ℕ
  pub body : String
  pub wrote : Bool
  pub passed : List Write

unfoldable pub write_header : ℕ → CapturingWriter → CapturingWriter
write_header status c = record c {
  status = status;
  wrote = true;
  passed = header status ∷ c.passed;
}

unfoldable pub write : String → CapturingWriter → CapturingWriter
write text c =
    let c' = if c.wrote then c else write_header 200 c in
    record c' { body = String.◌++◌ c'.body text; passed = bytes text ∷ c'.passed }

unfoldable pub capture : List Write → CapturingWriter → CapturingWriter
capture [] c = c
capture (header status ∷ ws) c = capture ws (write_header status c)
capture (bytes text ∷ ws) c = capture ws (write text c)

abbrev pub new_capture : CapturingWriter
new_capture = record { status = 200; body = ""; wrote = false; passed = [] }

pub record Request : Type 0 where
  pub method : String
  pub key : String
  pub tenant : String
  -- what reading the body gives
  pub body : Result String

-- The outside of one request: the errors of the three statements, and what the handler writes.
pub record Outside : Type 0 where
  pub insert : Failure
  pub select : Failure
  pub update : Failure
  pub handler : List Write

-- What the client gets: the handler's own response, an error by its status and code, or the stored
-- response.
pub data Response : Type 0 where
  handled : List Write → Response
  refused : (status : ℕ) (code : String) → Response
  replayed : (status : ℕ) (body : String) → Response

abbrev pub is_guarded : String → Bool
is_guarded method = str_eq method "POST" || str_eq method "DELETE" || str_eq method "PUT"

abbrev pub passes_by : Bool → Request → Bool
passes_by has_repo r =
    not (is_guarded r.method) || not has_repo || str_eq r.key "" || str_eq r.tenant ""

abbrev pub replay : IdempotencyHit → Response
replay hit =
    if not hit.hash_match
    then refused 409 "IDEMPOTENCY_CONFLICT"
    else if hit.status == 0
    then refused 409 "CONFLICT"
    else replayed hit.status hit.body

unfoldable pub after_begin :
    (String → Result String) → Outside → Request → Result IdempotencyHit × Table → Response × Table
after_begin jsonb out r (err e, table) = (refused 500 "INTERNAL", table)
after_begin jsonb out r (ok hit, table) =
    if not hit.is_first
    then (replay hit, table)
    else (let c = capture out.handler new_capture in
        (
          handled out.handler,
          (complete_request jsonb out.update r.tenant r.key c.status c.body table).1,
        ))

abbrev pub idempotent_read :
    (String → String)
    → (String → Result String)
    → Outside
    → Request
    → Result String
    → Table
    → Response × Table
idempotent_read sha256 jsonb out r (err e) table = (refused 400 "INVALID_PARAMETERS", table)
idempotent_read sha256 jsonb out r (ok body) table =
    after_begin jsonb out r (begin_request out.insert out.select r.tenant r.key (sha256 body) table)

-- The middleware around a handler; `has_repo` is false for a nil repository.
unfoldable pub idempotency :
    (sha256 : String → String)
    → (jsonb : String → Result String) → (has_repo : Bool) → Outside
    → Request
    → Table
    → Response × Table
idempotency sha256 jsonb has_repo out r table =
    if passes_by has_repo r
    then (handled out.handler, table)
    else idempotent_read sha256 jsonb out r r.body table
