-- ===== src/Api/Bots/Commands.antt =====
-- The other handlers of internal/api/http/v2/bots.go: reading a bot, and the commands to its worker.
-- A publication of Redis is its channel with its message; the JSON of a message is kept as data.
use meeting_baa_s.Base.{
  ℕ, String, Bool, true, false, not, ◌&&◌, Option, none, some, List, [], ◌∷◌, Result, ok, err,
  Failure, str_eq, if◌then◌else◌,
}
use meeting_baa_s.Api.{Response, respond_ok, respond_accepted, respond_error}
use meeting_baa_s.Api.Bots.{BotV2Row, Library, Deps, Store}
use Prim.Native.String

-- GetV2: no row, or the error of the query, or the row.
unfoldable pub find_row : String → List (String × BotV2Row) → Option BotV2Row
find_row id [] = none
find_row id ((key, row) ∷ rows) =
    let rest = find_row id rows in if str_eq key id then some row else rest

-- `failed` is the error of the query, beside that of no row.
unfoldable pub handle_get_bot :
    (failed : Failure) → (tenant id : String) → Store → Response BotV2Row
handle_get_bot failed tenant id st =
    if str_eq tenant ""
    then respond_error 401 "UNAUTHORIZED" "tenant context missing"
    else elim failed [
      | some e ↦ respond_error 500 "INTERNAL" e
      | none ↦ elim (find_row id st.rows) [
        | none ↦ respond_error 404 "NOT_FOUND" "bot not found"
        | some row ↦
            if not (str_eq row.tenant_id "") && not (str_eq row.tenant_id tenant)
            then respond_error 404 "NOT_FOUND" "bot not found"
            else respond_ok row
      ]
    ]

-- The fields of `bot:state:<id>`, or the light row.
pub data Status : Type 0 where
  cached : List (String × String) → Status
  stored : BotV2Row → Status

-- `hash` is what HGETALL answers, where Redis is set.
abbrev cached_hash : Bool → Result (List (String × String)) → Option (List (String × String))
cached_hash false hash = none
cached_hash true (err e) = none
cached_hash true (ok []) = none
cached_hash true (ok (f ∷ fs)) = some (f ∷ fs)

unfoldable pub handle_get_bot_status :
    Deps
    → (hash : Result (List (String × String))) → (failed : Failure) → (tenant id : String) → Store
    → Response Status
handle_get_bot_status deps hash failed tenant id st =
    if str_eq tenant ""
    then respond_error 401 "UNAUTHORIZED" "tenant context missing"
    else elim (cached_hash deps.redis hash) [
      | some fields ↦ respond_ok (cached fields)
      | none ↦ elim failed [
        | some e ↦ respond_error 500 "INTERNAL" e
        | none ↦ elim (find_row id st.rows) [
          | none ↦ respond_error 404 "NOT_FOUND" "bot not found"
          | some row ↦ respond_ok (stored row)
        ]
      ]
    ]

pub record Publication : Type 0 where
  pub channel : String
  pub message : List (String × String)

-- The status that the answer tells, and what went out.
abbrev pub Published : Type 0
Published = Response (List (String × String)) × List Publication

abbrev pub publish : (down : Failure) → Publication → List (String × String) → Published
publish (some e) p told = (respond_error 500 "INTERNAL" e, [])
publish none p told = (respond_accepted told, p ∷ [])

abbrev pub stop_channel : String → String
stop_channel bot_uuid = String.◌++◌ "bot:stop:" bot_uuid

-- PublishStop of redis_stream.go: the message is the bare reason.
unfoldable pub handle_leave_bot : Deps → (down : Failure) → (id : String) → Published
handle_leave_bot deps down id =
    if not deps.redis
    then (respond_error 503 "SERVICE_UNAVAILABLE" "redis not configured", [])
    else publish down (record { channel = stop_channel id; message = ("", "apiRequest") ∷ [] })
        (("status", "stop_signal_sent") ∷ [])

abbrev pub command_channel : String → String
command_channel id = String.◌++◌ "bot:cmd:" id

unfoldable pub bot_cmd_handler :
    Deps
    → (action : String) → (extra : List (String × String)) → (down : Failure) → (id : String)
    → Published
bot_cmd_handler deps action extra down id =
    if not deps.redis
    then (respond_error 503 "SERVICE_UNAVAILABLE" "redis not configured", [])
    else publish down
        (record { channel = command_channel id; message = ("action", action) ∷ extra })
        (("status", "command_sent") ∷ ("action", action) ∷ [])

abbrev pub handle_pause_bot : Deps → Failure → String → Published
handle_pause_bot deps = bot_cmd_handler deps "pause" []

abbrev pub handle_resume_bot : Deps → Failure → String → Published
handle_resume_bot deps = bot_cmd_handler deps "resume" []

-- `body` is the text that the decoder finds.
unfoldable pub handle_send_chat :
    Library → Deps → (body : Result String) → Failure → String → Published
handle_send_chat lib deps (err e) down id =
    (respond_error 400 "INVALID_PARAMETERS" "text is required", [])
handle_send_chat lib deps (ok text) down id =
    if str_eq (lib.trim_space text) ""
    then (respond_error 400 "INVALID_PARAMETERS" "text is required", [])
    else bot_cmd_handler deps "chat" (("text", text) ∷ []) down id

-- A row of data_retention_jobs: the tenant, the bot and the instant.
abbrev pub RetentionJob : Type 0
RetentionJob = String × String × ℕ

unfoldable pub handle_delete_data :
    (retention : Bool)
    → (failed : Failure) → (now : ℕ) → (tenant id : String) → List RetentionJob
    → Response String × List RetentionJob
handle_delete_data false failed now tenant id jobs =
    (respond_error 503 "SERVICE_UNAVAILABLE" "retention worker not configured", jobs)
handle_delete_data true (some e) now tenant id jobs = (respond_error 500 "INTERNAL" e, jobs)
handle_delete_data true none now tenant id jobs =
    (respond_accepted "delete_scheduled", (tenant, id, now) ∷ jobs)

-- `listed` is what ListOpen answers, where the repository is set; nil is the empty list.
unfoldable pub handle_alerts {ℓ} :
    {Alert : Type ℓ} → (alerts : Bool) → (listed : Result (List Alert)) → Response (List Alert)
handle_alerts false listed = respond_ok []
handle_alerts true (err e) = respond_error 500 "INTERNAL" e
handle_alerts true (ok rows) = respond_ok rows
