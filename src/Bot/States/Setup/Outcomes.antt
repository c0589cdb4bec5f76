-- ===== src/Bot/States/Setup/Outcomes.antt =====
-- How the states before the recording are left.
use meeting_baa_s.Base.{
  ◌/◌, ◌≡◌, refl, ◌⊎◌, inl, inr, true, none, some, is_some, Result, ok, err, arith, String,
}
use meeting_baa_s.Retry.{do_retry, Report}
use meeting_baa_s.Bot.Types.{
  StateType, initialization, waiting_room, in_call, recording, cleanup, error, EndReason,
  cannot_join_meeting, invalid_meeting_url, internal, exit_before_record,
}
use meeting_baa_s.Bot.Context.{set_error, should_stop, set_start_time, Provider}
use meeting_baa_s.Bot.World.{Script, World, Dependencies, with_mc, emit, launch}
use meeting_baa_s.Bot.Requests.Rules.{serve-SameSession}
use meeting_baa_s.Bot.States.Setup.{
  execute_initialization, execute_waiting_room, execute_in_call, after_launch, after_parse,
  launch_options,
}

-- The session has failed, for one of two reasons.
abbrev pub FailedBy : EndReason → EndReason → World → Type 0
FailedBy r r' w =
    (w.mc.has_error ≡ true) × ((w.mc.end_reason ≡ some r) ⊎ (w.mc.end_reason ≡ some r'))

abbrev pub IsReady : StateType → World → Type 0
IsReady next w =
    (next ≡ waiting_room)
    × (w.mc.browser_driver ≡ true)
    × (w.mc.page ≡ true)
    × (w.mc.provider ≡ true)

abbrev pub Prepared : StateType → World → Type 0
Prepared next w =
    IsReady next w ⊎ ((next ≡ error) × FailedBy invalid_meeting_url cannot_join_meeting w)

after_launch_outcome :
    (s : Script) (link : String) (r : Report) (w : World)
    → Prepared (after_launch s link r w).0 (after_launch s link r w).1
unfolding after_launch set_error
after_launch_outcome s link r w =
    ground
      (arith, serve-SameSession initialization s.during (record w.mc { browser_driver = true }))

after_parse_outcome :
    (s : Script) (o : Result (Provider × String)) (w : World)
    → Prepared (after_parse s o w).0 (after_parse s o w).1
unfolding after_parse set_error
after_parse_outcome s (err e) w = inr (refl, (refl, inl refl))
after_parse_outcome s (ok (provider, link)) w =
    after_launch_outcome s link (do_retry launch_options s.launch s.backoff) (
      emit
        (launch (do_retry launch_options s.launch s.backoff).calls
          (do_retry launch_options s.launch s.backoff).error)
        (with_mc (record w.mc { config = record w.mc.config { meeting_provider = some provider } })
          w))

-- Initialization goes to the waiting room with the browser, the page and the provider in place, or
-- to Error with an invalid URL or an unreachable meeting as its reason.
pub execute_initialization_outcome :
    (deps : Dependencies) (s : Script) (w : World)
    → Prepared (execute_initialization deps s w).0 (execute_initialization deps s w).1
unfolding execute_initialization
execute_initialization_outcome deps s w = after_parse_outcome s _ _

-- The waiting room goes to the call when JoinMeeting returned without an error and the page and the
-- provider were in place, to Cleanup with an end reason set, or to Error with an error and its end
-- reason recorded.
pub execute_waiting_room_outcome :
    (s : Script) (w : World)
    → let (next, w') = execute_waiting_room s w in
      ((next ≡ in_call) × (s.join_meeting ≡ none) × (w.mc.page ≡ true) × (w.mc.provider ≡ true))
      ⊎ ((next ≡ cleanup) × (is_some w'.mc.end_reason ≡ true))
      ⊎ ((next ≡ error) × (w'.mc.has_error ≡ true) × (is_some w'.mc.end_reason ≡ true))
unfolding execute_waiting_room set_error should_stop
execute_waiting_room_outcome s w = ground (arith, serve-SameSession waiting_room s.before w.mc)

-- The in-call state goes to the recording with the start time in milliseconds, to Cleanup with an
-- exit before the recording as its error, or to Error with an internal one.
pub execute_in_call_outcome :
    (deps : Dependencies) (s : Script) (w : World)
    → let (next, w') = execute_in_call deps s w in
      ((next ≡ recording) × (w'.mc.start_time ≡ s.now / 1000000))
      ⊎ ((next ≡ cleanup) × FailedBy exit_before_record exit_before_record w')
      ⊎ ((next ≡ error) × FailedBy internal internal w')
unfolding execute_in_call set_error should_stop set_start_time
execute_in_call_outcome deps s w = ground arith
