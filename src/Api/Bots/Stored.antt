-- ===== src/Api/Bots/Stored.antt =====
-- What the handlers of internal/api/http/v2/bots.go keep outside: the rows of PostgreSQL, the stream
-- of internal/infra/queue/redis_stream.go, and the keys of Redis.
use meeting_baa_s.Base.{ℕ, String, Bool, Option, List, Result, Failure}
use meeting_baa_s.Config.{AutomaticLeave, BotConfig}

-- The columns of the row that the handler sets.
pub record BotV2Row : Type 0 where
  pub tenant_id : String
  pub api_key_id : String
  pub user_id : ℕ
  pub meeting_url : String
  pub meeting_prov : String
  pub bot_name : String
  pub bot_image_url : String
  pub entry_message : String
  pub recording_mode : String
  pub allow_multiple_bots : Bool
  pub extra : String
  pub idempotency_key : String
  pub deduplication_hash : String
  pub transcription_enabled : Bool
  pub transcription_provider : String
  pub streaming_enabled : Bool
  pub streaming_input_url : String
  pub streaming_output_url : String
  pub streaming_audio_frequency : ℕ
  pub join_at : Option ℕ
  pub callback_url : String
  pub status : String
  pub webhook_url : String

-- The configuration that the job carries to the worker's standard input.
pub record ConfigPayload : Type 0 where
  pub bot_uuid : String
  pub user_id : ℕ
  pub meeting_url : String
  pub bot_name : String
  pub recording_mode : String
  pub bots_webhook_url : String
  pub automatic_leave : AutomaticLeave
  pub environ : String

-- What the worker's configuration reads of it, by the names of the JSON; the rest is empty.
unfoldable pub worker_config : ConfigPayload → BotConfig
worker_config p = record {
  meeting_url = p.meeting_url;
  bot_uuid = p.bot_uuid;
  bot_name = p.bot_name;
  recording_mode = p.recording_mode;
  environ = p.environ;
  streaming_audio_frequency = 0;
  automatic_leave = p.automatic_leave;
  user_token = "";
  bots_api_key = "";
  speech_to_text_api_key = "";
  zoom_sdk_pwd = "";
  secret = "";
}

pub record Job : Type 0 where
  pub bot_id : String
  pub bot_uuid : String
  pub bot_config : ConfigPayload

pub record OutboxEvent : Type 0 where
  pub tenant_id : String
  pub bot_id : String
  pub event_code : String
  pub status : String

-- A key of Redis holds until its second.
pub record Lock : Type 0 where
  pub bot_id : String
  pub until : ℕ

-- PostgreSQL's tables, the newest row first, the stream and the keys of Redis.
pub record Store : Type 0 where
  pub rows : List (String × BotV2Row)
  pub outbox : List OutboxEvent
  pub jobs : List Job
  pub locks : String → Option Lock

-- Which of the services are set, that is not nil.
pub record Deps : Type 0 where
  pub bots : Bool
  pub outbox : Bool
  pub producer : Bool
  pub redis : Bool

-- What one request meets outside: the clock, the answers of the two inserts and of XADD, and
-- whether GET and SET fail.
pub record Outside : Type 0 where
  pub now : ℕ
  pub inserted : Result String
  pub appended : Failure
  pub enqueued : Result String
  pub got : Failure
  pub set : Failure
