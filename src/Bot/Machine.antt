-- ===== src/Bot/Machine.antt =====
-- The engine of internal/usecase/bot/machine.go: `Run` over any map of states.
pub mod Attendees
pub mod Cancelling
pub mod Edges
pub mod Ending
pub mod Launched
pub mod Steps
pub mod Success
use meeting_baa_s.Base.{
  String, Bool, true, false, not, ◌&&◌, Option, none, some, List, [], ◌∷◌, Result, ok, err,
  if◌then◌else◌,
}
use meeting_baa_s.Bot.Types.{
  StateType, initialization, cleanup, error, terminated, EndReason, internal, is_normal,
}
use meeting_baa_s.Bot.Context.{MeetingContext, set_error}
use meeting_baa_s.Bot.World.{Script, World, Handler, with_mc}

pub record Machine : Type 0 where
  pub current : StateType
  pub world : World

abbrev pub StateMap : Type 0
StateMap = StateType → Option Handler

unfoldable pub new_machine : World → Machine
new_machine w = record { current = initialization; world = w }

-- One round of `Run`: whether the context is cancelled at its head, and what Execute then meets.
pub record Round : Type 0 where
  pub cancelled : Bool
  pub script : Script

-- `finished` is a nil error, `no_handler` the error of an unregistered state, and `running` a run
-- that waits for more rounds or inside a state.
pub data Run : Type 0 where
  finished running no_handler : Machine → Run

pub data Step : Type 0 where
  stop : Run → Step
  go : Machine → Step

abbrev pub is_terminated : StateType → Bool
is_terminated terminated = true
is_terminated _ = false

-- The states whose own failure ends the run.
abbrev pub is_last_resort : StateType → Bool
is_last_resort error = true
is_last_resort cleanup = true
is_last_resort _ = false

-- What `Run` does with the outcome of Execute.
unfoldable pub advance : StateType → Result StateType × World → Machine
advance current (ok next, w) = record { current = next; world = w }
advance current (err e, w) =
    if not (is_last_resort current)
    then record { current = error; world = with_mc (set_error internal e w.mc) w }
    else record { current = terminated; world = w }

abbrev executed : Machine → Option (Result StateType × World) → Step
executed m none = stop (running m)
executed m (some r) = go (advance m.current r)

abbrev dispatch : Option Handler → Script → Machine → Step
dispatch none s m = stop (no_handler m)
dispatch (some h) s m = executed m (h s m.world)

unfoldable pub step : StateMap → Round → Machine → Step
unfolding advance
step states r m =
    if is_terminated m.current
    then stop (finished m)
    else if r.cancelled
    then stop (finished (record m { current = terminated }))
    else dispatch (states m.current) r.script m

unfoldable pub run : StateMap → List Round → Machine → Run
run states [] m = if is_terminated m.current then finished m else running m
run states (r ∷ rs) m = elim (step states r m) [ stop result ↦ result | go m' ↦ run states rs m' ]

abbrev normal : Option EndReason → Bool
normal none = false
normal (some reason) = is_normal reason

unfoldable pub was_recording_successful : Machine → Bool
was_recording_successful m = not m.world.mc.has_error && normal m.world.mc.end_reason
