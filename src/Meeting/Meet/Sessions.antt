-- ===== src/Meeting/Meet/Sessions.antt =====
-- Whole sessions whose provider is Meet's: the join loop composed with the states and the machine.
use meeting_baa_s.Base.{
  ◌≡◌, refl, ◌≢◌, inl, inr, String, Bool, true, false, some, List, Result, ok, err, arith, All, any,
  is_some, Bool-cases,
}
use meeting_baa_s.Meeting.Meet.{JoinOptions, Joined, Lobby, join_meeting}
use meeting_baa_s.Meeting.Meet.Admission.{Answers, join_meeting-IsRefused}
use meeting_baa_s.Retry.{Report}
use meeting_baa_s.Bot.Types.{
  StateType, initialization, waiting_room, in_call, recording, paused, resuming, cleanup, error,
  terminated,
}
use meeting_baa_s.Bot.Context.{Provider, BotConfig}
use meeting_baa_s.Bot.World.{Script, World, Dependencies, new_world}
use meeting_baa_s.Bot.States.{build_state_map}
use meeting_baa_s.Bot.States.Setup.{
  execute_initialization, execute_waiting_room, after_parse, after_launch, after_open, after_join,
}
use meeting_baa_s.Bot.States.Setup.Outcomes.{execute_waiting_room_outcome}
use meeting_baa_s.Bot.States.Closing.{execute_cleanup, execute_error}
use meeting_baa_s.Bot.Machine.{Machine, Round, finished, new_machine, run, was_recording_successful}
use meeting_baa_s.Bot.Machine.Steps.{execute, run_keeps, some_pair}
use meeting_baa_s.Bot.Machine.Edges.{may_follow, execute-may_follow}
use meeting_baa_s.Bot.Machine.Success.{is_recorder_start, run-IsStarted, start-called}

-- The provider's answer to a session's JoinMeeting is that of Meet on a page that answers whether the
-- bot was removed.
abbrev pub JoinsMeet : Script → Type 0
JoinsMeet s =
    (opts : JoinOptions) × (lobby : Lobby) × (j : Joined) × All (λ r. Answers r.dom) lobby.rounds
    × (join_meeting opts (some lobby) ≡ some j)
    × (s.join_meeting ≡ j.error)
    × (s.join_success ≡ j.success)

JoinsMeet-refused : (s : Script) → JoinsMeet s → is_some s.join_meeting ≡ true
JoinsMeet-refused s (opts, lobby, j, a, h, e, e') =
    let (failed, quiet) = join_meeting-IsRefused opts lobby j a h in rw e failed

-- A session that has not come into the call.
abbrev is_outside : StateType → Bool
is_outside in_call = false
is_outside recording = false
is_outside paused = false
is_outside resuming = false
is_outside _ = true

abbrev Unrecorded : World → Type 0
Unrecorded w = any is_recorder_start w.log ≡ false

abbrev Outside : StateType → World → Type 0
Outside c w = (is_outside c ≡ true) × Unrecorded w

launch-Unrecorded :
    (s : Script) (link : String) (r : Report) (w : World)
    → Unrecorded w
    → Unrecorded (after_launch s link r w).1
unfolding after_launch after_open
launch-Unrecorded s link r w q = ground arith

parse-Unrecorded :
    (s : Script) (p : Result (Provider × String)) (w : World)
    → Unrecorded w
    → Unrecorded (after_parse s p w).1
unfolding after_parse
parse-Unrecorded s (err e) w q = q
parse-Unrecorded s (ok (provider, link)) w q = launch-Unrecorded s link _ _ q

waiting_room-Unrecorded :
    (s : Script) (w : World) → Unrecorded w → Unrecorded (execute_waiting_room s w).1
unfolding execute_waiting_room after_join
waiting_room-Unrecorded s w q = ground arith

cleanup-Unrecorded :
    (deps : Dependencies) (s : Script) (w : World)
    → Unrecorded w
    → Unrecorded (execute_cleanup deps s w).1
unfolding execute_cleanup
cleanup-Unrecorded deps s w q = ground arith

-- Only the waiting room leads into the call.
follows_outside :
    (c next : StateType)
    → is_outside c ≡ true
    → c ≢ waiting_room
    → may_follow c next ≡ true
    → is_outside next ≡ true
follows_outside c next o n h = ground arith

waiting_room-outside :
    (s : Script) (w : World) → JoinsMeet s → is_outside (execute_waiting_room s w).0 ≡ true
waiting_room-outside s w g = ground (arith, JoinsMeet-refused s g, execute_waiting_room_outcome s w)

execute-Outside :
    (deps : Dependencies) (c : StateType) (s : Script) (w : World) (next : StateType) (w' : World)
    → JoinsMeet s
    → c ≢ terminated
    → execute deps c s w ≡ some (next, w')
    → Outside c w
    → Outside next w'
execute-Outside deps initialization s w next w' g t h (o, q) = (
  follows_outside initialization next o (λ e. cc)
      (execute-may_follow deps initialization s w next w' t h),
  some_pair (λ n. Unrecorded) (execute_initialization deps s w) next w' h
      (unfold execute_initialization in parse-Unrecorded s _ _ q),
)
execute-Outside deps waiting_room s w next w' g t h (o, q) =
    some_pair Outside (execute_waiting_room s w) next w' h
      (waiting_room-outside s w g, waiting_room-Unrecorded s w q)
execute-Outside deps cleanup s w next w' g t h (o, q) = (
  follows_outside cleanup next o (λ e. cc) (execute-may_follow deps cleanup s w next w' t h),
  some_pair (λ n. Unrecorded) (execute_cleanup deps s w) next w' h (cleanup-Unrecorded deps s w q),
)
execute-Outside deps error s w next w' g t h (o, q) = (
  follows_outside error next o (λ e. cc) (execute-may_follow deps error s w next w' t h),
  some_pair (λ n. Unrecorded) (execute_error deps s w) next w' h
      (unfold execute_error in ground arith),
)
execute-Outside deps terminated s w next w' g t h p = absurd (t refl)
execute-Outside deps _ s w next w' g t h (o, q) = cc o

-- No session over Meet's provider starts its recorder or counts as successful, while the page answers,
-- shown or not, whether the bot was removed: it ends outside the call.
pub run_unrecorded :
    (deps : Dependencies) (cfg : BotConfig) (rounds : List Round) (m : Machine)
    → deps.recorder ≡ true
    → All (λ r. JoinsMeet r.script) rounds
    → run (build_state_map deps) rounds (new_machine (new_world cfg)) ≡ finished m
    → (any is_recorder_start m.world.log ≡ false) × (was_recording_successful m ≡ false)
unfolding new_machine
run_unrecorded deps cfg rounds m wired g e =
    let start = new_machine (new_world cfg) in
    let (outside, unrecorded) =
      run_keeps deps (λ r. JoinsMeet r.script) Outside
        (λ c r w n w' g t x. execute-Outside deps c r.script w n w' g t x)
        (λ c r w g z p. (refl, p.1)) rounds start m g e (refl, refl) in
    elim (Bool-cases (was_recording_successful m)) [
      | inl s ↦ cc (run-IsStarted deps cfg rounds m wired e s, start-called m.world.log unrecorded)
      | inr f ↦ (unrecorded, f)
    ]
