-- ===== src/Bot/Context.antt =====
-- `MeetingContext` of internal/usecase/bot/types.go and its locked accessors. Each accessor holds
-- the mutex for its whole body, so it is one step. An instant is its nanoseconds; the zero
-- `time.Time` is 0. A handle (page, provider, browser driver) is whether it is set.
use meeting_baa_s.Base.{
  ℕ, ◌+◌, ◌-◌, String, Bool, true, false, not, ◌&&◌, Option, none, some, is_some, if◌then◌else◌,
}
use meeting_baa_s.Bot.Types.{EndReason}

pub data Provider : Type 0 where
  meet teams zoom : Provider

-- Seconds, as 64-bit words.
pub record AutomaticLeave : Type 0 where
  pub waiting_room_timeout : ℕ
  pub noone_joined_timeout : ℕ
  pub silence_timeout : ℕ

-- The fields of `BotConfig` that the states read or write.
pub record BotConfig : Type 0 where
  pub meeting_url : String
  pub meeting_provider : Option Provider
  pub bot_name : String
  pub automatic_leave : AutomaticLeave

pub record MeetingContext : Type 0 where
  pub config : BotConfig
  pub provider : Bool
  pub browser_driver : Bool
  pub page : Bool
  pub start_time : ℕ
  pub last_speaker_time : ℕ
  pub no_speaker_detected_time : ℕ
  pub attendees_count : ℕ
  pub first_user_joined : Bool
  pub is_paused : Bool
  pub pause_start_time : ℕ
  pub total_pause_duration : ℕ
  pub end_reason : Option EndReason
  pub error_message : String
  pub has_error : Bool

-- `&sm.MeetingContext{Config: cfg}` of NewBotWorker.
unfoldable pub new_context : BotConfig → MeetingContext
new_context cfg = record {
  config = cfg;
  provider = false;
  browser_driver = false;
  page = false;
  start_time = 0;
  last_speaker_time = 0;
  no_speaker_detected_time = 0;
  attendees_count = 0;
  first_user_joined = false;
  is_paused = false;
  pause_start_time = 0;
  total_pause_duration = 0;
  end_reason = none;
  error_message = "";
  has_error = false;
}

unfoldable pub set_end_reason : EndReason → MeetingContext → MeetingContext
set_end_reason reason mc = record mc { end_reason = some reason }

unfoldable pub set_error : EndReason → String → MeetingContext → MeetingContext
set_error reason msg mc = record mc {
  end_reason = some reason;
  error_message = msg;
  has_error = true;
}

unfoldable pub should_stop : MeetingContext → Bool
should_stop mc = is_some mc.end_reason

-- `now` is the reading of the clock; `time.Since` is never negative on Go's monotonic clock.
unfoldable pub set_paused : Bool → ℕ → MeetingContext → MeetingContext
set_paused flag now mc =
    let mc' = record mc { is_paused = flag } in
    if flag && not mc.is_paused
    then record mc' { pause_start_time = now }
    else if not flag && mc.is_paused
    then record mc' { total_pause_duration = mc.total_pause_duration + (now - mc.pause_start_time) }
    else mc'

unfoldable pub set_start_time : ℕ → MeetingContext → MeetingContext
set_start_time t mc = record mc { start_time = t }
