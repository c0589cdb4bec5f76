-- ===== src/Api/Bots/Handler.antt =====
-- The handler of POST /v2/bots and POST /v2/bots/scheduled: handleCreate of
-- internal/api/http/v2/bots.go, call by call.
use meeting_baa_s.Base.{
  ◌+◌, String, Bool, true, not, ◌||◌, Option, none, some, ◌∷◌, Result, ok, err, str_eq,
  if◌then◌else◌,
}
use meeting_baa_s.Config.{speaker_view}
use meeting_baa_s.Api.{Response, respond_ok, respond_created, respond_error}
use meeting_baa_s.Api.Bots.{
  CreateBotRequest, CreateBotResponse, Library, Deps, Outside, Store, Job, OutboxEvent, BotV2Row,
  validate_create, detect_provider, default_str, build_timeouts, dedup_hash_for, dedup_key,
  put_lock, check_dedup, provider_of, url_of,
}
use Prim.Native.String

abbrev pub status_of : (scheduled : Bool) → String
status_of scheduled = if scheduled then "scheduled" else "queued"

-- What the request's header and its key's row give: the tenant, the key's id, Idempotency-Key.
pub record Caller : Type 0 where
  pub tenant_id : String
  pub api_key_id : String
  pub idempotency_key : String

abbrev pub allows_multiple : CreateBotRequest → Bool
allows_multiple req = elim req.allow_multiple_bots [ none ↦ true | some b ↦ b ]

unfoldable pub hash_of : Library → Outside → CreateBotRequest → String
hash_of lib out req =
    if allows_multiple req then "" else dedup_hash_for lib out.now req.meeting_url req.join_at

unfoldable pub new_row : Library → Outside → Caller → Bool → CreateBotRequest → BotV2Row
new_row lib out caller scheduled req = record {
  tenant_id = caller.tenant_id;
  api_key_id = caller.api_key_id;
  user_id = req.user_id;
  meeting_url = req.meeting_url;
  meeting_prov = detect_provider lib req.meeting_url;
  bot_name = req.bot_name;
  bot_image_url = req.bot_image;
  entry_message = req.entry_message;
  recording_mode = req.recording_mode;
  allow_multiple_bots = allows_multiple req;
  extra = req.extra;
  idempotency_key = caller.idempotency_key;
  deduplication_hash = hash_of lib out req;
  transcription_enabled = req.transcription_enabled;
  transcription_provider = provider_of req.transcription_config;
  streaming_enabled = req.streaming_enabled;
  streaming_input_url = req.streaming_input_url;
  streaming_output_url = req.streaming_output_url;
  streaming_audio_frequency = req.streaming_audio_frequency;
  join_at = req.join_at;
  callback_url = url_of req.callback_config;
  status = status_of scheduled;
  webhook_url = req.webhook_url;
}

-- InsertV2 gives two columns their defaults.
unfoldable pub stored_row : BotV2Row → BotV2Row
stored_row row = record row {
  recording_mode = default_str row.recording_mode speaker_view;
  status = default_str row.status "queued";
}

unfoldable pub new_job : String → CreateBotRequest → Job
new_job id req = record {
  bot_id = id;
  bot_uuid = id;
  bot_config = record {
    bot_uuid = id;
    user_id = req.user_id;
    meeting_url = req.meeting_url;
    bot_name = req.bot_name;
    recording_mode = default_str req.recording_mode speaker_view;
    bots_webhook_url = req.webhook_url;
    automatic_leave = build_timeouts req.timeout_config;
    environ = "prod";
  };
}

-- Enqueue on a producer that is set: the stream's id, and the stream.
unfoldable pub enqueue : Outside → Job → Store → Result String × Store
enqueue out job st = elim out.enqueued [
  | err e ↦ (err e, st)
  | ok sid ↦ (ok sid, record st { jobs = job ∷ st.jobs })
]

unfoldable pub append_event : Deps → Outside → OutboxEvent → Store → Store
append_event deps out ev st =
    if not deps.outbox
    then st
    else elim out.appended [ some e ↦ st | none ↦ record st { outbox = ev ∷ st.outbox } ]

-- The error of XADD is dropped.
abbrev pub stream_of : Result String × Store → String × Store
stream_of (ok sid, st) = (sid, st)
stream_of (err e, st) = ("", st)

unfoldable pub dispatch : Deps → Outside → Bool → String → CreateBotRequest → Store → String × Store
dispatch deps out scheduled id req st =
    if scheduled || not deps.producer then ("", st) else stream_of (enqueue out (new_job id req) st)

unfoldable pub lock_dedup :
    Library → Deps → Outside → String → String → CreateBotRequest → Store → Store
lock_dedup lib deps out tenant id req st =
    if allows_multiple req || not deps.redis then st else elim out.set [
      | some e ↦ st
      | none ↦ record st {
        locks =
            put_lock (dedup_key tenant (hash_of lib out req))
              (record { bot_id = id; until = out.now + 3600 }) st.locks;
      }
    ]

-- What follows the INSERT that gave `id`.
unfoldable pub persisted :
    Library
    → Deps
    → Outside
    → Caller
    → Bool
    → CreateBotRequest
    → String
    → Store
    → Response CreateBotResponse × Store
persisted lib deps out caller scheduled req id st =
    let row = new_row lib out caller scheduled req in
    let inserted : Store = record st { rows = (id, stored_row row) ∷ st.rows } in
    let event : OutboxEvent = record {
      tenant_id = caller.tenant_id;
      bot_id = id;
      event_code = "bot.status_change";
      status = status_of scheduled;
    } in
    let (stream_id, dispatched) =
      dispatch deps out scheduled id req (append_event deps out event inserted) in
    (
      respond_created (record { bot_id = id; stream_id = stream_id; status = status_of scheduled }),
      lock_dedup lib deps out caller.tenant_id id req dispatched,
    )

-- The short-circuit: the bot that a key of Redis names, where only one is allowed.
unfoldable pub existing_bot :
    Library → Deps → Outside → Caller → CreateBotRequest → Store → Option String
existing_bot lib deps out caller req st =
    if allows_multiple req
    then none
    else check_dedup deps out caller.tenant_id (hash_of lib out req) st

unfoldable pub create_valid :
    Library
    → Deps
    → Outside
    → Caller
    → Bool
    → CreateBotRequest
    → Store
    → Response CreateBotResponse × Store
create_valid lib deps out caller scheduled req st = elim (existing_bot lib deps out caller req st) [
  | some id ↦ (respond_ok (record { bot_id = id; stream_id = ""; status = "queued" }), st)
  | none ↦
      if not deps.bots
      then (respond_error 503 "SERVICE_UNAVAILABLE" "bot repository not configured", st)
      else elim out.inserted [
        | err e ↦ (respond_error 500 "INTERNAL" (String.◌++◌ "insert bot: " e), st)
        | ok id ↦ persisted lib deps out caller scheduled req id st
      ]
]

-- `body` is what the JSON decoder makes of the request.
unfoldable pub handle_create :
    Library
    → Deps
    → Outside
    → Caller
    → (scheduled : Bool) → (body : Result CreateBotRequest) → Store
    → Response CreateBotResponse × Store
handle_create lib deps out caller scheduled body st =
    if str_eq caller.tenant_id ""
    then (respond_error 401 "UNAUTHORIZED" "tenant context missing", st)
    else elim body [
      | err e ↦ (respond_error 400 "INVALID_PARAMETERS" (String.◌++◌ "invalid JSON body: " e), st)
      | ok req ↦ elim (validate_create lib req scheduled) [
        | some e ↦ (respond_error 400 "INVALID_PARAMETERS" e, st)
        | none ↦ create_valid lib deps out caller scheduled req st
      ]
    ]
