-- ===== src/Bot/Requests.antt =====
-- The control plane of a running bot: `RequestStop` of internal/usecase/bot/machine.go, and the
-- adapters and the command loop of internal/app/botworker.go.
pub mod Rules
use meeting_baa_s.Base.{ℕ, Bool, true, false, ◌&&◌, ◌||◌, List, [], ◌∷◌, if◌then◌else◌}
use meeting_baa_s.Bot.Types.{
  StateType, initialization, waiting_room, in_call, recording, paused, EndReason, api_request,
  exit_before_record,
}
use meeting_baa_s.Bot.Context.{MeetingContext, set_end_reason, set_error, set_paused}
use meeting_baa_s.Bot.World.{
  Request, http_stop, http_pause, http_resume, cmd_pause, cmd_resume, cmd_chat, cmd_unknown,
}

abbrev pub is_pre_recording : StateType → Bool
is_pre_recording initialization = true
is_pre_recording waiting_room = true
is_pre_recording in_call = true
is_pre_recording _ = false

abbrev is_api_request : EndReason → Bool
is_api_request api_request = true
is_api_request _ = false

unfoldable pub request_stop : StateType → EndReason → MeetingContext → MeetingContext
request_stop current reason mc =
    if is_api_request reason && is_pre_recording current
    then set_error exit_before_record "Bot was stopped before recording started" mc
    else set_end_reason reason mc

-- The states from which the HTTP server pauses and resumes.
abbrev pub may_pause : StateType → Bool
may_pause recording = true
may_pause paused = true
may_pause _ = false

-- One request, served in the machine's current state. A chat message only posts to the page.
unfoldable pub serve_request : StateType → Request → MeetingContext → MeetingContext
unfolding request_stop
serve_request current http_stop mc = request_stop current api_request mc
serve_request current (http_pause t) mc = if may_pause current then set_paused true t mc else mc
serve_request current (http_resume t) mc = if may_pause current then set_paused false t mc else mc
serve_request current (cmd_pause t) mc = set_paused true t mc
serve_request current (cmd_resume t) mc = set_paused false t mc
serve_request current (cmd_chat text) mc = mc
serve_request current (cmd_unknown action) mc = mc

unfoldable pub serve : StateType → List Request → MeetingContext → MeetingContext
serve current [] mc = mc
serve current (r ∷ rs) mc = serve current rs (serve_request current r mc)
