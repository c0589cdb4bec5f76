-- ===== src/Config.antt =====
-- The session's configuration: internal/config/validator.go and the masking of config.go. The fields
-- that neither reads or changes are left out of `BotConfig`.
pub mod Validity
use meeting_baa_s.Base.{
  ℕ, String, Bool, true, false, not, ◌&&◌, ◌||◌, Option, none, some, Failure, ltb, str_eq,
  if◌then◌else◌, is_negative,
}

pub record AutomaticLeave : Type 0 where
  pub waiting_room_timeout : ℕ
  pub noone_joined_timeout : ℕ
  pub silence_timeout : ℕ

pub record BotConfig : Type 0 where
  pub meeting_url : String
  pub bot_uuid : String
  pub bot_name : String
  pub recording_mode : String
  pub environ : String
  pub streaming_audio_frequency : ℕ
  pub automatic_leave : AutomaticLeave
  pub user_token : String
  pub bots_api_key : String
  pub speech_to_text_api_key : String
  pub zoom_sdk_pwd : String
  pub secret : String

abbrev pub speaker_view : String
speaker_view = "speaker_view"

abbrev pub audio_only : String
audio_only = "audio_only"

unfoldable pub normalise_recording_mode : String → String
normalise_recording_mode m =
    if str_eq m "speaker_view" || str_eq m "SpeakerView"
    then speaker_view
    else if str_eq m "gallery_view" || str_eq m "GalleryView"
    then speaker_view
    else if str_eq m "audio_only" || str_eq m "AudioOnly"
    then audio_only
    else m

abbrev pub canonical_mode : String → String
canonical_mode m = if str_eq m "" then speaker_view else normalise_recording_mode m

abbrev pub with_mode : BotConfig → BotConfig
with_mode c = record c { recording_mode = canonical_mode c.recording_mode }

abbrev pub has_negative : AutomaticLeave → Bool
has_negative l =
    is_negative l.waiting_room_timeout
    || is_negative l.noone_joined_timeout
    || is_negative l.silence_timeout

-- `f != 0 && (f < 8000 || f > 96000)`, where a negative `f` is a word above 96000.
abbrev pub is_out_of_range : ℕ → Bool
is_out_of_range f = ltb 0 f && (ltb f 8000 || ltb 96000 f)

-- The message of the frequency's error goes on with the number.
abbrev check_settings : BotConfig → Failure × BotConfig
check_settings c =
    if has_negative c.automatic_leave
    then (some "config: automatic_leave timeouts must be >= 0", c)
    else if is_out_of_range c.streaming_audio_frequency
    then (some "config: streaming_audio_frequency out of range", c)
    else (none, c)

-- `Validate` on a pointer that is not nil: the error, and the configuration as it left it.
-- `trim_space` is strings.TrimSpace.
unfoldable pub validate : (trim_space : String → String) → BotConfig → Failure × BotConfig
validate trim_space c =
    if str_eq (trim_space c.meeting_url) ""
    then (some "config: meeting_url is required", c)
    else if str_eq (trim_space c.bot_uuid) ""
    then (some "config: bot_uuid is required", c)
    else if str_eq (trim_space c.bot_name) ""
    then (some "config: bot_name is required", c)
    else check_settings (with_mode c)

-- A secret that is set is replaced.
abbrev pub mask : String → String
mask s = if str_eq s "" then s else "***MASKED***"

unfoldable pub masked_clone : BotConfig → BotConfig
masked_clone c = record c {
  user_token = mask c.user_token;
  bots_api_key = mask c.bots_api_key;
  speech_to_text_api_key = mask c.speech_to_text_api_key;
  zoom_sdk_pwd = mask c.zoom_sdk_pwd;
  secret = mask c.secret;
}
