-- ===== src/Bot/States/Closing.antt =====
-- The states that end a session: internal/usecase/bot/states/error.go, cleanup.go and
-- terminated.go. Every failure in them is only logged.
use meeting_baa_s.Base.{Bool, ◌&&◌, if◌then◌else◌}
use meeting_baa_s.Bot.Types.{StateType, cleanup, error, terminated}
use meeting_baa_s.Bot.World.{
  Script, World, Dependencies, emit, with_mc, Effect, recorder_stop, close_meeting, upload,
  send_complete, send_error, close_browser,
}
use meeting_baa_s.Bot.Requests.{serve}

abbrev pub emit_if : Bool → Effect → World → World
emit_if b e w = if b then emit e w else w

unfoldable pub execute_error : Dependencies → Script → World → StateType × World
execute_error deps s w0 =
    let w = with_mc (serve error s.before w0.mc) w0 in
    (cleanup, emit_if deps.webhooker (send_error w.mc.end_reason w.mc.error_message) w)

unfoldable pub execute_cleanup : Dependencies → Script → World → StateType × World
execute_cleanup deps s w0 =
    let w1 = emit_if deps.recorder recorder_stop (with_mc (serve cleanup s.before w0.mc) w0) in
    let w2 = emit_if (w1.mc.provider && w1.mc.page) close_meeting w1 in
    let w3 = emit_if deps.uploader upload w2 in
    let w4 = with_mc (serve cleanup s.during w3.mc) w3 in
    let w5 = emit_if deps.webhooker (send_complete w4.mc.end_reason) w4 in
    (terminated, emit_if w5.mc.browser_driver close_browser w5)

unfoldable pub execute_terminated : Script → World → StateType × World
execute_terminated s w = (terminated, w)
