-- ===== src/Bot/Machine/Edges.antt =====
-- The state diagram that the machine follows.
use meeting_baa_s.Base.{◌≡◌, refl, ◌≢◌, Bool, true, false, some, arith}
use meeting_baa_s.Bot.Types.{
  StateType, initialization, waiting_room, in_call, recording, paused, resuming, cleanup, error,
  terminated,
}
use meeting_baa_s.Bot.World.{Script, World, Dependencies}
use meeting_baa_s.Bot.States.{build_state_map}
use meeting_baa_s.Bot.States.Setup.Outcomes.{
  execute_initialization_outcome, execute_waiting_room_outcome, execute_in_call_outcome,
}
use meeting_baa_s.Bot.States.Recording.Exits.{execute_recording-IsExit}
use meeting_baa_s.Bot.States.Paused.{execute_resuming}
use meeting_baa_s.Bot.States.Paused.Exits.{execute_paused-IsExit}
use meeting_baa_s.Bot.States.Closing.{execute_cleanup, execute_error}
use meeting_baa_s.Bot.Machine.{Machine, Round, go, step}
use meeting_baa_s.Bot.Machine.Steps.{execute, step_at, some_pair}

-- The states that may follow a state.
abbrev pub may_follow : StateType → StateType → Bool
may_follow initialization waiting_room = true
may_follow initialization error = true
may_follow waiting_room in_call = true
may_follow waiting_room cleanup = true
may_follow waiting_room error = true
may_follow in_call recording = true
may_follow in_call cleanup = true
may_follow in_call error = true
may_follow recording paused = true
may_follow recording cleanup = true
may_follow paused resuming = true
may_follow paused cleanup = true
may_follow resuming recording = true
may_follow resuming error = true
may_follow error cleanup = true
may_follow cleanup terminated = true
may_follow _ _ = false

abbrev Follows : StateType → StateType → World → Type 0
Follows c next w = may_follow c next ≡ true

pub execute-may_follow :
    (deps : Dependencies) (c : StateType) (s : Script) (w : World) (next : StateType) (w' : World)
    → c ≢ terminated
    → execute deps c s w ≡ some (next, w')
    → may_follow c next ≡ true
execute-may_follow deps initialization s w next w' t h =
    some_pair (Follows initialization) _ next w' h
      (ground (arith, execute_initialization_outcome deps s w))
execute-may_follow deps waiting_room s w next w' t h =
    some_pair (Follows waiting_room) _ next w' h (ground (arith, execute_waiting_room_outcome s w))
execute-may_follow deps in_call s w next w' t h =
    some_pair (Follows in_call) _ next w' h (ground (arith, execute_in_call_outcome deps s w))
execute-may_follow deps recording s w next w' t h =
    ground (arith, execute_recording-IsExit deps s w h)
execute-may_follow deps paused s w next w' t h = ground (arith, execute_paused-IsExit deps s w h)
execute-may_follow deps resuming s w next w' t h =
    some_pair (Follows resuming) _ next w' h (unfold execute_resuming in ground arith)
execute-may_follow deps cleanup s w next w' t h =
    some_pair (Follows cleanup) _ next w' h (unfold execute_cleanup in refl)
execute-may_follow deps error s w next w' t h =
    some_pair (Follows error) _ next w' h (unfold execute_error in refl)
execute-may_follow deps terminated s w next w' t h = absurd (t refl)

-- Whatever the outside answers, every step that the machine takes over the states of the package
-- follows the diagram, and none is taken once the context is cancelled.
pub step-may_follow :
    (deps : Dependencies) (r : Round) (m m' : Machine)
    → step (build_state_map deps) r m ≡ go m'
    → (may_follow m.current m'.current ≡ true) × (r.cancelled ≡ false)
step-may_follow deps r m m' h =
    let (t, live, e) = step_at deps m.current m.world r m' h in
    (execute-may_follow deps m.current r.script m.world m'.current m'.world t e, live)
