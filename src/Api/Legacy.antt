-- ===== src/Api/Legacy.antt =====
-- The first version of the API: the handlers of internal/app/apiserver.go, with Insert and Get of
-- internal/infra/storage/postgres/bot_repo.go. The search for a provider works on bytes.
pub mod Search
pub mod Tenants
use meeting_baa_s.Base.{
  ℕ, zero, suc, ◌+◌, String, Bool, true, false, not, ◌&&◌, ◌||◌, Option, none, some, List, [], ◌∷◌,
  Result, ok, err, Failure, ◌==◌, leb, length, str_eq, is_some, if◌then◌else◌,
}
use meeting_baa_s.Config.{speaker_view}
use meeting_baa_s.Api.{Response, answer, failure, respond_ok, respond_accepted, respond_error}
use meeting_baa_s.Api.Access.{Bytes}
use meeting_baa_s.Api.Bots.{Job, ConfigPayload, default_str}
use meeting_baa_s.Api.Bots.Commands.{Publication, stop_channel}
use Prim.Native.String

-- `haystack[:len(needle)] == needle`, for a haystack that is long enough.
abbrev pub begins : (needle haystack : Bytes) → Bool
begins [] h = true
begins (c ∷ n) [] = false
begins (c ∷ n) (d ∷ h) = (d == c) && begins n h

-- The loop from position `i`, whose rest of the haystack is given.
unfoldable pub index_from : (needle : Bytes) → ℕ → Bytes → Option ℕ
index_from needle i [] = if leb (length needle) 0 then some i else none
index_from needle i (d ∷ h) =
    let rest = index_from needle (suc i) h in
    if leb (length needle) (suc (length h))
    then (if begins needle (d ∷ h) then some i else rest)
    else none

abbrev is_empty : Bytes → Bool
is_empty [] = true
is_empty (c ∷ s) = false

-- The position -1 is none.
unfoldable pub index_of : (haystack needle : Bytes) → Option ℕ
index_of haystack needle = if is_empty needle then some 0 else index_from needle 0 haystack

unfoldable pub string_contains : (haystack needle : Bytes) → Bool
string_contains haystack needle =
    is_empty needle || (leb (length needle) (length haystack) && is_some (index_of haystack needle))

-- `bytes` gives the bytes of a text.
unfoldable pub v2_detect_provider : (bytes : String → Bytes) → String → String
v2_detect_provider bytes url =
    if string_contains (bytes url) (bytes "meet.google.com")
    then "Meet"
    else if string_contains (bytes url) (bytes "teams.microsoft.com")
        || string_contains (bytes url) (bytes "teams.live.com")
    then "Teams"
    else if string_contains (bytes url) (bytes ".zoom.us/")
    then "Zoom"
    else "unknown"

pub record V1CreateRequest : Type 0 where
  pub bot_uuid : String
  pub user_id : ℕ
  pub meeting_url : String
  pub bot_name : String
  pub webhook_url : String
  pub recording_mode : String

pub record V1CreateResponse : Type 0 where
  pub id : String
  pub bot_uuid : String
  pub stream_id : String
  pub status : String

-- The columns of the row that the handler sets.
pub record BotRow : Type 0 where
  pub bot_uuid : String
  pub user_id : ℕ
  pub meeting_url : String
  pub meeting_prov : String
  pub bot_name : String
  pub recording_mode : String
  pub webhook_url : String
  pub status : String

pub record Store : Type 0 where
  pub rows : List (String × BotRow)
  pub jobs : List Job

unfoldable pub v1_job : String → V1CreateRequest → Job
v1_job id req = record {
  bot_id = id;
  bot_uuid = req.bot_uuid;
  bot_config = record {
    bot_uuid = req.bot_uuid;
    user_id = req.user_id;
    meeting_url = req.meeting_url;
    bot_name = req.bot_name;
    recording_mode = default_str req.recording_mode speaker_view;
    bots_webhook_url = req.webhook_url;
    automatic_leave = record {
      waiting_room_timeout = 300;
      noone_joined_timeout = 300;
      silence_timeout = 300;
    };
    environ = "prod";
  };
}

unfoldable pub v1_row : (bytes : String → Bytes) → V1CreateRequest → BotRow
v1_row bytes req = record {
  bot_uuid = req.bot_uuid;
  user_id = req.user_id;
  meeting_url = req.meeting_url;
  meeting_prov = v2_detect_provider bytes req.meeting_url;
  bot_name = req.bot_name;
  recording_mode = default_str req.recording_mode speaker_view;
  webhook_url = req.webhook_url;
  status = "queued";
}

-- The errors of this version have a message and no code.
abbrev pub write_v1_error {ℓ} : {A : Type ℓ} → ℕ → String → Response A
write_v1_error status msg = failure status "" msg

abbrev v1_created : String → V1CreateRequest → String → V1CreateResponse
v1_created id req sid = record {
  id = id;
  bot_uuid = req.bot_uuid;
  stream_id = sid;
  status = "queued";
}

-- The row is inserted before its job is put on the stream; where that fails, the row stays.
unfoldable pub v1_insert :
    (bytes : String → Bytes)
    → (inserted enqueued : Result String) → V1CreateRequest
    → Store
    → Response V1CreateResponse × Store
v1_insert bytes (err e) enqueued req st = (write_v1_error 500 (String.◌++◌ "db insert: " e), st)
v1_insert bytes (ok id) (err e) req st = (
  write_v1_error 500 (String.◌++◌ "enqueue: " e),
  record st { rows = (id, v1_row bytes req) ∷ st.rows },
)
v1_insert bytes (ok id) (ok sid) req st = (
  respond_accepted (v1_created id req sid),
  record { rows = (id, v1_row bytes req) ∷ st.rows; jobs = v1_job id req ∷ st.jobs },
)

unfoldable pub handle_v1_create_bot :
    (bytes : String → Bytes)
    → (bots producer : Bool) → (inserted enqueued : Result String) → (body : Result V1CreateRequest)
    → Store
    → Response V1CreateResponse × Store
handle_v1_create_bot bytes bots producer inserted enqueued body st =
    if not bots || not producer
    then (write_v1_error 503 "api-server: postgres or redis not configured", st)
    else elim body [
      | err e ↦ (write_v1_error 400 (String.◌++◌ "invalid json: " e), st)
      | ok req ↦
          if str_eq req.meeting_url "" || str_eq req.bot_name ""
          then (write_v1_error 400 "meeting_url and bot_name required", st)
          else v1_insert bytes inserted enqueued req st
    ]

unfoldable pub find_v1 : String → List (String × BotRow) → Option BotRow
find_v1 id [] = none
find_v1 id ((key, row) ∷ rows) =
    let rest = find_v1 id rows in if str_eq key id then some row else rest

-- `failed` is the error of the query, beside that of no row.
unfoldable pub get_v1 : (failed : Failure) → String → Store → Response BotRow
get_v1 failed id st = elim failed [
  | some e ↦ write_v1_error 500 e
  | none ↦ elim (find_v1 id st.rows) [
    | none ↦ write_v1_error 404 "not found"
    | some row ↦ respond_ok row
  ]
]

unfoldable pub handle_v1_get_bot : (bots : Bool) → Failure → String → Store → Response BotRow
handle_v1_get_bot bots failed id st =
    if not bots then write_v1_error 503 "postgres not configured" else get_v1 failed id st

abbrev stopped : (down : Failure) → Response BotRow → Response String × List Publication
stopped down (failure status code msg) = (failure status code msg, [])
stopped (some e) (answer status row) = (write_v1_error 500 e, [])
stopped none (answer status row) = (
  respond_accepted "stop_signal_sent",
  record { channel = stop_channel row.bot_uuid; message = ("", "apiRequest") ∷ [] } ∷ [],
)

unfoldable pub handle_v1_stop_bot :
    (redis : Bool) → (failed down : Failure) → String → Store → Response String × List Publication
handle_v1_stop_bot redis failed down id st =
    if not redis
    then (write_v1_error 503 "redis not configured", [])
    else stopped down (get_v1 failed id st)
