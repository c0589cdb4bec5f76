-- ===== src/Webhook/Payloads.antt =====
-- The two webhooks of a session: internal/infra/webhook/types.go, with the texts of the end reasons
-- of internal/usecase/bot/types.go. The encoder gives its error for a payload.
use meeting_baa_s.Base.{ℕ, String, Option, none, some, Failure}
use meeting_baa_s.Bot.Types.{
  EndReason, bot_removed, no_attendees, no_speaker, all_participants_left, recording_timeout,
  api_request, exit_before_record, bot_removed_too_early, bot_not_accepted, cannot_join_meeting,
  timeout_waiting, invalid_meeting_url, streaming_setup_failed, login_required, internal,
}
use meeting_baa_s.Bot.Context.{MeetingContext}
use meeting_baa_s.Webhook.{Sender, Try, Delivery, send}

unfoldable pub reason_text : EndReason → String
reason_text bot_removed = "botRemoved"
reason_text no_attendees = "noAttendees"
reason_text no_speaker = "noSpeaker"
reason_text all_participants_left = "allParticipantsLeft"
reason_text recording_timeout = "recordingTimeout"
reason_text api_request = "apiRequest"
reason_text exit_before_record = "exitingMeetingBeforeRecord"
reason_text bot_removed_too_early = "botRemovedTooEarly"
reason_text bot_not_accepted = "botNotAccepted"
reason_text cannot_join_meeting = "cannotJoinMeeting"
reason_text timeout_waiting = "timeoutWaitingToStart"
reason_text invalid_meeting_url = "invalidMeetingUrl"
reason_text streaming_setup_failed = "streamingSetupFailed"
reason_text login_required = "loginRequired"
reason_text internal = "internalError"

-- The reason that is not set is the empty text.
abbrev given_text : Option EndReason → String
given_text none = ""
given_text (some r) = reason_text r

-- The metadata that no caller sets are left out of `complete`.
pub data Outcome : Type 0 where
  complete : (end_reason : String) → Outcome
  failed : (code message : String) → Outcome

pub record WebhookPayload : Type 0 where
  pub bot_uuid : String
  pub session_id : String
  pub timestamp : ℕ
  pub outcome : Outcome

-- The fields of the configuration that a webhook names.
pub record BotWebhooker : Type 0 where
  pub webhook_url : String
  pub bot_uuid : String
  pub session_id : String

abbrev payload_of : BotWebhooker → ℕ → Outcome → WebhookPayload
payload_of w now outcome = record {
  bot_uuid = w.bot_uuid;
  session_id = w.session_id;
  timestamp = now;
  outcome = outcome;
}

unfoldable pub complete_payload : BotWebhooker → ℕ → MeetingContext → WebhookPayload
complete_payload w now mc = payload_of w now (complete (given_text mc.end_reason))

unfoldable pub error_payload : BotWebhooker → ℕ → MeetingContext → WebhookPayload
error_payload w now mc = payload_of w now (failed (given_text mc.end_reason) mc.error_message)

unfoldable pub send_complete :
    (encode : WebhookPayload → Failure)
    → BotWebhooker
    → ℕ
    → (ℕ → Try)
    → MeetingContext
    → Sender
    → Delivery
send_complete encode w now tries mc s =
    send (encode (complete_payload w now mc)) now tries w.webhook_url s

unfoldable pub send_error :
    (encode : WebhookPayload → Failure)
    → BotWebhooker
    → ℕ
    → (ℕ → Try)
    → MeetingContext
    → Sender
    → Delivery
send_error encode w now tries mc s =
    send (encode (error_payload w now mc)) now tries w.webhook_url s
