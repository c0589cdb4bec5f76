-- ===== src/Bot/Machine/Attendees.antt =====
-- Whether a session can end for lack of attendees.
use meeting_baa_s.Bot.States.Setup.Outcomes.{
  execute_initialization_outcome, execute_waiting_room_outcome,
}
use meeting_baa_s.Base.{◌≡◌, refl, ◌≢◌, Bool, true, false, none, some, List, arith, All, ap}
use meeting_baa_s.Bot.Types.{
  StateType, initialization, waiting_room, in_call, recording, paused, resuming, cleanup, error,
  terminated, no_attendees, api_request,
}
use meeting_baa_s.Bot.Context.{MeetingContext, BotConfig, new_context, set_end_reason, set_error}
use meeting_baa_s.Bot.World.{Script, World, Dependencies, Request, new_world}
use meeting_baa_s.Bot.Requests.{serve}
use meeting_baa_s.Bot.Requests.Rules.{serve-SameSession, blames_attendees, serve-blames_attendees}
use meeting_baa_s.Bot.States.{build_state_map}
use meeting_baa_s.Bot.States.Setup.{execute_initialization, execute_waiting_room, execute_in_call}
use meeting_baa_s.Bot.States.Setup.Attendees.{
  IsBlameless, execute_initialization-IsBlameless, execute_waiting_room-IsBlameless,
  execute_waiting_room-joined, execute_in_call-IsBlameless, execute_in_call-joined,
}
use meeting_baa_s.Bot.States.Recording.Attendees.{IsAttended, execute_recording-IsAttended}
use meeting_baa_s.Bot.States.Paused.{execute_resuming}
use meeting_baa_s.Bot.States.Paused.Exits.{execute_paused_keeps}
use meeting_baa_s.Bot.States.Closing.{execute_cleanup, execute_error, execute_terminated}
use meeting_baa_s.Bot.Machine.{Machine, Round, finished, new_machine, run}
use meeting_baa_s.Bot.Machine.Steps.{execute, run_keeps, some_pair}

-- The states behind the waiting room, up to the end of the recording.
abbrev is_joined : StateType → Bool
is_joined in_call = true
is_joined recording = true
is_joined paused = true
is_joined resuming = true
is_joined _ = false

abbrev Attended : StateType → World → Type 0
Attended c w = IsBlameless w × (is_joined c ≡ true → w.mc.first_user_joined ≡ true)

-- JoinMeeting calls OnJoinSuccess before it returns without an error, as Meet's provider does.
abbrev pub ReportsJoin : Script → Type 0
ReportsJoin s = s.join_meeting ≡ none → s.join_success ≡ true

resuming-IsAttended :
    (deps : Dependencies) (s : Script) (w : World)
    → IsAttended w.mc
    → IsAttended (execute_resuming deps s w).1.mc
unfolding execute_resuming set_error
resuming-IsAttended deps s w h =
    ground (
      arith,
      serve-blames_attendees resuming s.before w.mc,
      serve-SameSession resuming s.before w.mc,
    )

error-IsBlameless :
    (deps : Dependencies) (s : Script) (w : World)
    → IsBlameless w
    → IsBlameless (execute_error deps s w).1
unfolding execute_error
error-IsBlameless deps s w h = ground (arith, serve-blames_attendees error s.before w.mc)

cleanup-IsBlameless :
    (deps : Dependencies) (s : Script) (w : World)
    → IsBlameless w
    → IsBlameless (execute_cleanup deps s w).1
unfolding execute_cleanup
cleanup-IsBlameless deps s w h =
    let mc = serve cleanup s.before w.mc in
    ground (
      arith,
      serve-blames_attendees cleanup s.before w.mc,
      serve-blames_attendees cleanup s.during mc,
    )

paused-IsAttended :
    (rs : List Request) (mc : MeetingContext) → IsAttended mc → IsAttended (serve paused rs mc)
paused-IsAttended rs mc h = (
  rw (serve-SameSession paused rs mc).first_user_joined h.0,
  serve-blames_attendees paused rs mc h.1,
)

stop-IsAttended : (mc : MeetingContext) → IsAttended mc → IsAttended (set_end_reason api_request mc)
unfolding set_end_reason
stop-IsAttended mc h = (h.0, refl)

execute-Attended :
    (deps : Dependencies) (c : StateType) (s : Script) (w : World) (next : StateType) (w' : World)
    → ReportsJoin s
    → execute deps c s w ≡ some (next, w')
    → Attended c w
    → Attended next w'
execute-Attended deps initialization s w next w' g h p =
    some_pair Attended (execute_initialization deps s w) next w' h (
      execute_initialization-IsBlameless deps s w p.0,
      ground (arith, execute_initialization_outcome deps s w),
    )
execute-Attended deps waiting_room s w next w' g h p =
    some_pair Attended (execute_waiting_room s w) next w' h (
      execute_waiting_room-IsBlameless s w p.0,
      ground (arith, execute_waiting_room-joined s w g, execute_waiting_room_outcome s w),
    )
execute-Attended deps in_call s w next w' g h p =
    some_pair Attended (execute_in_call deps s w) next w' h
      (execute_in_call-IsBlameless deps s w p.0, λ e. execute_in_call-joined deps s w (p.1 refl))
execute-Attended deps recording s w next w' g h p =
    let (joined, blameless) = execute_recording-IsAttended deps s w h (p.1 refl, p.0) in
    (blameless, λ e. joined)
execute-Attended deps paused s w next w' g h p =
    let (joined, blameless) =
      execute_paused_keeps IsAttended paused-IsAttended stop-IsAttended deps s w h
        (p.1 refl, p.0) in
    (blameless, λ e. joined)
execute-Attended deps resuming s w next w' g h p =
    let (joined, blameless) = resuming-IsAttended deps s w (p.1 refl, p.0) in
    some_pair Attended (execute_resuming deps s w) next w' h (blameless, λ e. joined)
execute-Attended deps cleanup s w next w' g h p =
    some_pair Attended (execute_cleanup deps s w) next w' h
      (cleanup-IsBlameless deps s w p.0, unfold execute_cleanup in λ e. cc)
execute-Attended deps error s w next w' g h p =
    some_pair Attended (execute_error deps s w) next w' h
      (error-IsBlameless deps s w p.0, unfold execute_error in λ e. cc)
execute-Attended deps terminated s w next w' g h p =
    some_pair Attended (execute_terminated s w) next w' h
      (unfold execute_terminated in (p.0, λ e. cc))

-- A session whose provider reports the join before it returns never ends with `noAttendees`:
-- whatever happens in the meeting, the recording state has no way to give that reason.
pub run-ne-no_attendees :
    (deps : Dependencies) (cfg : BotConfig) (rounds : List Round) (m : Machine)
    → All (λ r. ReportsJoin r.script) rounds
    → run (build_state_map deps) rounds (new_machine (new_world cfg)) ≡ finished m
    → m.world.mc.end_reason ≢ some no_attendees
unfolding new_machine new_context
run-ne-no_attendees deps cfg rounds m g h e =
    let p =
      run_keeps deps (λ r. ReportsJoin r.script) Attended
        (λ c r w n w' g t. execute-Attended deps c r.script w n w' g)
        (λ c r w g z p. (p.0, λ x. cc)) rounds (new_machine (new_world cfg)) m g h
        (refl, λ x. cc) in
    cc (p.0, ap blames_attendees e)
