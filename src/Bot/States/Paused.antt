-- ===== src/Bot/States/Paused.antt =====
-- internal/usecase/bot/states/paused.go.
pub mod Exits
use Prim.Native.String
use meeting_baa_s.Base.{Bool, true, false, not, Option, none, some, List, [], ◌∷◌, if◌then◌else◌}
use meeting_baa_s.Bot.Types.{StateType, recording, paused, resuming, cleanup, internal, api_request}
use meeting_baa_s.Bot.Context.{MeetingContext, set_end_reason, should_stop}
use meeting_baa_s.Bot.World.{
  Tick, Script, World, Dependencies, emit, with_mc, recorder_pause, recorder_resume,
}
use meeting_baa_s.Bot.Requests.{serve}
use meeting_baa_s.Bot.States.Setup.{fail}
use meeting_baa_s.Bot.Polling.{Poll, leave, again, poll, into_world}

unfoldable pub wait_once : Tick → MeetingContext → Poll
wait_once t mc0 =
    let mc = serve paused t.before mc0 in
    if t.cancelled
    then leave cleanup (set_end_reason api_request mc)
    else if should_stop mc
    then leave cleanup mc
    else if not mc.is_paused
    then leave resuming mc
    else again mc

abbrev pub pause_recorder : Dependencies → World → World
pause_recorder deps w = if deps.recorder then emit recorder_pause w else w

-- What is asked before the state begins, and the recorder paused.
abbrev pub enter : Dependencies → Script → World → World
enter deps s w = pause_recorder deps (with_mc (serve paused s.before w.mc) w)

unfoldable pub execute_paused : Dependencies → Script → World → Option (StateType × World)
execute_paused deps s w = let w' = enter deps s w in into_world w' (poll wait_once s.ticks w'.mc)

unfoldable pub execute_resuming : Dependencies → Script → World → StateType × World
execute_resuming deps s w0 =
    let w = with_mc (serve resuming s.before w0.mc) w0 in
    if deps.recorder
    then (elim s.recorder_resume [
      | some e ↦ fail internal (String.◌++◌ "resume recording failed: " e) (emit recorder_resume w)
      | none ↦ (recording, emit recorder_resume w)
    ])
    else (recording, w)
