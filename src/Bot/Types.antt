-- ===== src/Bot/Types.antt =====
-- The enumerations of internal/usecase/bot/types.go. An empty `EndReason` is `none`.
use meeting_baa_s.Base.{String, Bool, true, false}

pub data StateType : Type 0 where
  initialization waiting_room in_call recording paused resuming cleanup error terminated : StateType

pub data EndReason : Type 0 where
  bot_removed no_attendees no_speaker all_participants_left : EndReason
  recording_timeout api_request exit_before_record : EndReason
  bot_removed_too_early bot_not_accepted cannot_join_meeting timeout_waiting : EndReason
  invalid_meeting_url streaming_setup_failed login_required internal : EndReason

-- The map `NormalEndReasons`, and its lookup `IsNormal`.
unfoldable pub is_normal : EndReason → Bool
is_normal bot_removed = true
is_normal no_attendees = true
is_normal no_speaker = true
is_normal all_participants_left = true
is_normal recording_timeout = true
is_normal api_request = true
is_normal _ = false

pub error_message : EndReason → String
error_message bot_removed = "Bot was removed from the meeting."
error_message no_attendees = "No attendees joined the meeting."
error_message no_speaker = "No speakers detected during recording."
error_message all_participants_left = "All participants left the meeting."
error_message recording_timeout = "Recording timeout reached."
error_message api_request = "Recording stopped via API request."
error_message exit_before_record = "Bot exited before recording started."
error_message bot_removed_too_early = "Bot was removed too early; the video is too short."
error_message bot_not_accepted = "Bot was not accepted into the meeting."
error_message cannot_join_meeting = "Cannot join meeting - meeting is not reachable."
error_message timeout_waiting = "Timeout waiting to start recording."
error_message invalid_meeting_url = "Invalid meeting URL provided."
error_message streaming_setup_failed = "Failed to set up streaming audio."
error_message login_required = "Login required to access the meeting."
error_message internal = "Internal error occurred during recording."
