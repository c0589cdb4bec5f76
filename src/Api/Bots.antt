-- ===== src/Api/Bots.antt =====
-- The creation of bots: the requests of internal/api/http/v2/bots.go and their checks. A pointer is an
-- Option, an instant counts seconds, and `extra` is the JSON text of its map.
mod Stored
pub mod Commands
pub mod Tenants
pub mod Creation
pub mod Dedup
pub mod Handler
pub use Stored.*
unfoldable pub use Stored.{worker_config}
use meeting_baa_s.Base.{
  ℕ, zero, ◌+◌, ◌/◌, ◌<◌, String, Bool, true, false, not, ◌&&◌, ◌||◌, Option, none, some, List, [],
  ◌∷◌, Result, ok, err, Failure, ltb, ◌==◌, str_eq, if◌then◌else◌, is_positive,
}
use meeting_baa_s.Config.{AutomaticLeave, BotConfig, speaker_view}
use meeting_baa_s.Api.{Response, answer, failure, respond_ok, respond_created, respond_error}
use Prim.Native.String

pub record TranscriptionConfigReq : Type 0 where
  pub provider : String
  pub api_key : String

-- In seconds, as 64-bit words.
pub record TimeoutConfigReq : Type 0 where
  pub waiting_room_timeout : ℕ
  pub no_one_joined_timeout : ℕ
  pub silence_timeout : ℕ

pub record CallbackConfigReq : Type 0 where
  pub url : String
  pub secret : String

pub record CreateBotRequest : Type 0 where
  pub meeting_url : String
  pub bot_name : String
  pub bot_image : String
  pub entry_message : String
  pub recording_mode : String
  pub transcription_enabled : Bool
  pub transcription_config : Option TranscriptionConfigReq
  pub streaming_enabled : Bool
  pub streaming_input_url : String
  pub streaming_output_url : String
  pub streaming_audio_frequency : ℕ
  pub timeout_config : Option TimeoutConfigReq
  pub allow_multiple_bots : Option Bool
  pub extra : String
  pub callback_config : Option CallbackConfigReq
  pub join_at : Option ℕ
  pub webhook_url : String
  pub user_id : ℕ

pub record CreateBotResponse : Type 0 where
  pub bot_id : String
  pub stream_id : String
  pub status : String

-- What the handlers call of Go: strings.TrimSpace, strings.Contains, and the hex of the SHA-256 of
-- the URL and the minute.
pub record Library : Type 0 where
  pub trim_space : String → String
  pub contains : String → String → Bool
  pub digest : String → ℕ → String

abbrev is_known_mode : String → Bool
is_known_mode m = str_eq m "speaker_view" || str_eq m "gallery_view" || str_eq m "audio_only"

-- `t != 0 && (t < low || t > 1800)`: a negative word is above 1800.
abbrev is_outside : ℕ → ℕ → Bool
is_outside low t = not (t == 0) && (ltb t low || ltb 1800 t)

abbrev lacks_provider : Option TranscriptionConfigReq → Bool
lacks_provider none = true
lacks_provider (some c) = str_eq c.provider ""

abbrev pub check_timeouts : Option TimeoutConfigReq → Failure
check_timeouts none = none
check_timeouts (some t) =
    if is_outside 120 t.waiting_room_timeout
    then some "waiting_room_timeout must be between 120 and 1800"
    else if is_outside 120 t.no_one_joined_timeout
    then some "no_one_joined_timeout must be between 120 and 1800"
    else if is_outside 300 t.silence_timeout
    then some "silence_timeout must be between 300 and 1800"
    else none

abbrev is_unset {ℓ} : {A : Type ℓ} → Option A → Bool
is_unset none = true
is_unset (some a) = false

unfoldable pub validate_create : Library → CreateBotRequest → (scheduled : Bool) → Failure
validate_create lib req scheduled =
    if str_eq (lib.trim_space req.meeting_url) ""
    then some "meeting_url is required"
    else if str_eq (lib.trim_space req.bot_name) ""
    then some "bot_name is required"
    else if scheduled && is_unset req.join_at
    then some "join_at is required for scheduled bots"
    else if not (str_eq req.recording_mode "") && not (is_known_mode req.recording_mode)
    then some "recording_mode must be one of speaker_view|gallery_view|audio_only"
    else if req.transcription_enabled && lacks_provider req.transcription_config
    then some "transcription_config.provider is required when transcription_enabled=true"
    else check_timeouts req.timeout_config

unfoldable pub detect_provider : Library → String → String
detect_provider lib u =
    if lib.contains u "meet.google.com"
    then "Meet"
    else if lib.contains u "teams.microsoft.com" || lib.contains u "teams.live.com"
    then "Teams"
    else if lib.contains u ".zoom.us/"
    then "Zoom"
    else "unknown"

abbrev pub default_str : String → String → String
default_str s default = if str_eq s "" then default else s

-- `> 0` replaces the default, as `positive_or` has it.
abbrev or_default : ℕ → ℕ
or_default t = if is_positive t then t else 600

unfoldable pub build_timeouts : Option TimeoutConfigReq → AutomaticLeave
build_timeouts none = record {
  waiting_room_timeout = 600;
  noone_joined_timeout = 600;
  silence_timeout = 600;
}
build_timeouts (some t) = record {
  waiting_room_timeout = or_default t.waiting_room_timeout;
  noone_joined_timeout = or_default t.no_one_joined_timeout;
  silence_timeout = or_default t.silence_timeout;
}

-- `now` is the clock.
abbrev minutes : (now : ℕ) → Option ℕ → ℕ
minutes now none = now / 60
minutes now (some at_time) = at_time / 60

unfoldable pub dedup_hash_for : Library → (now : ℕ) → String → Option ℕ → String
dedup_hash_for lib now url join_at = lib.digest url (minutes now join_at)

unfoldable pub dedup_key : String → String → String
dedup_key tenant hash = String.◌++◌ "dedup:" (String.◌++◌ tenant (String.◌++◌ ":" hash))

abbrev live_lock : ℕ → Option Lock → Option String
live_lock now none = none
live_lock now (some l) = if ltb now l.until && not (str_eq l.bot_id "") then some l.bot_id else none

unfoldable pub check_dedup : Deps → Outside → (tenant hash : String) → Store → Option String
check_dedup deps out tenant hash st =
    if not deps.redis || str_eq hash "" then none else elim out.got [
      | some e ↦ none
      | none ↦ live_lock out.now (st.locks (dedup_key tenant hash))
    ]

abbrev pub put_lock : String → Lock → (String → Option Lock) → String → Option Lock
put_lock key l locks k = if str_eq k key then some l else locks k

abbrev pub provider_of : Option TranscriptionConfigReq → String
provider_of none = ""
provider_of (some c) = c.provider

abbrev pub url_of : Option CallbackConfigReq → String
url_of none = ""
url_of (some c) = c.url
