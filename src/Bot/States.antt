-- ===== src/Bot/States.antt =====
-- The states of internal/usecase/bot/states, and the map that registry.go builds of them.
pub mod Setup
pub mod Recording
pub mod Paused
pub mod Closing
use meeting_baa_s.Base.{Option, none, some, Result, ok}
use meeting_baa_s.Bot.Types.{
  StateType, initialization, waiting_room, in_call, recording, paused, resuming, cleanup, error,
  terminated,
}
use meeting_baa_s.Bot.World.{Script, World, Handler, Dependencies}
use Setup.{execute_initialization, execute_waiting_room, execute_in_call}
use Recording.{execute_recording}
use Paused.{execute_paused, execute_resuming}
use Closing.{execute_cleanup, execute_error, execute_terminated}

-- No state of the package returns an error: each records its failures in the context.
abbrev returns : StateType × World → Option (Result StateType × World)
returns (next, w) = some (ok next, w)

abbrev may_return : Option (StateType × World) → Option (Result StateType × World)
may_return none = none
may_return (some r) = returns r

unfoldable pub build_state_map : Dependencies → StateType → Option Handler
build_state_map deps initialization = some (λ s w. returns (execute_initialization deps s w))
build_state_map deps waiting_room = some (λ s w. returns (execute_waiting_room s w))
build_state_map deps in_call = some (λ s w. returns (execute_in_call deps s w))
build_state_map deps recording = some (λ s w. may_return (execute_recording deps s w))
build_state_map deps paused = some (λ s w. may_return (execute_paused deps s w))
build_state_map deps resuming = some (λ s w. returns (execute_resuming deps s w))
build_state_map deps cleanup = some (λ s w. returns (execute_cleanup deps s w))
build_state_map deps error = some (λ s w. returns (execute_error deps s w))
build_state_map deps terminated = some (λ s w. returns (execute_terminated s w))
