-- ===== src/Tests/Requests.antt =====
-- Requests of the API.
use meeting_baa_s.Base.{◌⊎◌, String, err, ◌≡◌, refl, true, false, none, some, [], ◌∷◌, ok, All}
use text.Mathlib.Text.{starts_with}
use meeting_baa_s.Api.{Response, answer}
use meeting_baa_s.Api.Bots.{
  CreateBotRequest, CreateBotResponse, Library, Deps, Outside, Store, BotV2Row, validate_create,
  detect_provider, build_timeouts, dedup_hash_for, dedup_key, check_dedup,
}
use meeting_baa_s.Api.Bots.Handler.{
  Caller, handle_create, create_valid, existing_bot, persisted, dispatch, enqueue, append_event,
  lock_dedup, new_job, new_row, stored_row, hash_of,
}
use meeting_baa_s.Api.Bots.Creation.{IsRunnable, handle_create-IsRunnable}
use meeting_baa_s.Api.Bots.Dedup.{found}
use meeting_baa_s.Api.Bots.Commands.{find_row, handle_get_bot}
use meeting_baa_s.Api.Bots.Tenants.{Creation}
use meeting_baa_s.Api.Legacy.{V1CreateRequest, v1_row}
use meeting_baa_s.Api.Legacy.Tenants.{
  V1Creation, v1_bot, v2_bot, arrive_at, arrive_all, IsUntold, read_v2, get_after_arrivals,
  v1_bot_shared,
}
use meeting_baa_s.Api.Access.{ApiKeyRow, Bytes, Cache, Lookup}
use meeting_baa_s.Api.Access.Limits.{Hit}

-- Go's functions, with a digest that keeps the URL alone.
abbrev go : Library
go = record { trim_space = λ s. s; contains = starts_with; digest = λ url minute. url }

abbrev services : Deps
services = record { bots = true; outbox = true; producer = true; redis = true }

abbrev outside : Outside
outside = record {
  now = 1000;
  inserted = ok "b1";
  appended = none;
  enqueued = ok "1-0";
  got = none;
  set = none;
}

abbrev later : Outside
later = record outside { now = 1030; inserted = ok "b2" }

abbrev caller : Caller
caller = record { tenant_id = "acme"; api_key_id = "k1"; idempotency_key = "" }

abbrev request : CreateBotRequest
request = record {
  meeting_url = "https://meet.google.com/abc-defg-hij";
  bot_name = "Notetaker";
  bot_image = "";
  entry_message = "";
  recording_mode = "";
  transcription_enabled = false;
  transcription_config = none;
  streaming_enabled = false;
  streaming_input_url = "";
  streaming_output_url = "";
  streaming_audio_frequency = 0;
  timeout_config =
      some
        (record { waiting_room_timeout = 120; no_one_joined_timeout = 0; silence_timeout = 1800 });
  allow_multiple_bots = some false;
  extra = "{}";
  callback_config = none;
  join_at = none;
  webhook_url = "";
  user_id = 7;
}

abbrev no_bots : Store
no_bots = record { rows = []; outbox = []; jobs = []; locks = λ key. none }

abbrev created : Response CreateBotResponse × Store
created = handle_create go services outside caller false (ok request) no_bots

create_one : Unit {0}
unfolding handle_create create_valid existing_bot persisted dispatch enqueue append_event lock_dedup
    new_job new_row stored_row hash_of validate_create detect_provider build_timeouts dedup_hash_for
    dedup_key check_dedup find_row handle_get_bot
create_one = tt

handle_create-IsRunnable_example : All (IsRunnable go) created.1.jobs
handle_create-IsRunnable_example =
    handle_create-IsRunnable go services outside caller false (ok request) no_bots
      (λ id e. let same : "b1" ≡ id = cc in rw⁻¹ same refl) tt

abbrev order : Creation
order = record { out = outside; caller = caller; scheduled = false; body = ok request }

abbrev row : BotV2Row
row = stored_row (new_row go outside caller false request)

abbrev old_request : V1CreateRequest
old_request = record {
  bot_uuid = "u1";
  user_id = 7;
  meeting_url = "https://meet.google.com/abc-defg-hij";
  bot_name = "Notetaker";
  webhook_url = "";
  recording_mode = "";
}

-- The stream is down.
abbrev old_order : V1Creation
old_order = record {
  bots = true;
  producer = true;
  inserted = ok "b0";
  enqueued = err "connection refused";
  body = ok old_request;
}

abbrev no_bytes : String → Bytes
no_bytes s = []

get_after_arrivals_example : (row.tenant_id ≡ "acme") ⊎ IsUntold go no_bytes services row
unfolding create_one arrive_all arrive_at
get_after_arrivals_example =
    get_after_arrivals go no_bytes services (v1_bot old_order ∷ v2_bot order ∷ []) no_bots none
      "acme" "b1" row refl refl

v1_bot_shared_example :
    handle_get_bot none "acme" "b0" (arrive_at go no_bytes services (v1_bot old_order) no_bots)
    ≡ answer 200 (read_v2 (v1_row no_bytes old_request))
v1_bot_shared_example =
    v1_bot_shared go no_bytes services old_order old_request "b0" "acme" no_bots refl refl refl refl
      refl refl

abbrev pub api_key : ApiKeyRow
api_key = record {
  id = 49 ∷ [];
  tenant_id = 50 ∷ [];
  key_prefix = 51 ∷ 52 ∷ [];
  rate_limit_per_min = 60;
}

abbrev pub no_cache : Cache
no_cache key = none

abbrev pub lookup : Lookup
lookup = record { now = 1000; got = none; set = none; found = ok api_key }

abbrev hit : Hit
hit = record { api_key_id = "k1"; limit = 2; now = 125; incr = none }
