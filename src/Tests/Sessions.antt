-- ===== src/Tests/Sessions.antt =====
-- Sessions of the bot.
use meeting_baa_s.Bot.Machine.Success.{run-IsStarted, IsStarted}
use meeting_baa_s.Bot.States.Paused.Exits.{execute_paused-IsExit}
use meeting_baa_s.Bot.States.Recording.Exits.{execute_recording-IsExit, execute_recording_total}
use meeting_baa_s.Bot.States.Setup.Reaching.{Decided, execute_initialization-Decided}
use meeting_baa_s.Bot.States.Setup.Quiet.{is_closing}
use meeting_baa_s.Bot.Machine.Cancelling.{run_cancelled}
use meeting_baa_s.Bot.Machine.Edges.{may_follow, step-may_follow}
use meeting_baa_s.Bot.Machine.Attendees.{run-ne-no_attendees}
use meeting_baa_s.Bot.Types.{
  is_normal, StateType, in_call, paused, resuming, terminated, no_attendees,
}
use meeting_baa_s.Base.{◌≡◌, refl, ◌≢◌, true, false, Option, none, some, [], ◌∷◌, any}
use meeting_baa_s.Bot.World.{World, new_world, Script, http_stop, cmd_pause, cmd_resume}
use meeting_baa_s.Bot.States.{build_state_map}
use meeting_baa_s.Bot.States.Setup.{
  execute_initialization, execute_waiting_room, execute_in_call, after_parse, after_launch,
  after_open, after_join, start_recorder, attach_hooks, waiting_timeout,
}
use meeting_baa_s.Bot.States.Recording.{
  execute_recording, poll_once, check_meeting, check_timeouts, first_reason, update_attendees,
  other_count, check_no_speaker, check_no_one_joined, check_alone_in_meeting,
}
use meeting_baa_s.Bot.States.Paused.{execute_paused, execute_resuming, wait_once, pause_recorder}
use meeting_baa_s.Bot.States.Closing.{execute_cleanup, execute_error, execute_terminated}
use meeting_baa_s.Bot.Machine.{
  Machine, run, step, advance, new_machine, finished, Run, Round, was_recording_successful,
}
use meeting_baa_s.Bot.Machine.Ending.{IsClosed, run-IsClosed}
use meeting_baa_s.Bot.Context.{
  new_context, set_end_reason, set_error, should_stop, set_paused, set_start_time,
}
use meeting_baa_s.Bot.Requests.{serve, serve_request, request_stop}
use meeting_baa_s.Bot.Polling.{poll}
use meeting_baa_s.Retry.{do_retry, loop}
use meeting_baa_s.Bot.States.Recording.Exits
use meeting_baa_s.Bot.States.Paused.Exits as Pausing
use meeting_baa_s.Tests.Samples.{config, deps, rounds, joining, in_meeting, round, script, tick}

unfoldable pub run_all : Unit {0}
unfolding execute_initialization execute_waiting_room execute_in_call after_parse after_launch
    after_open after_join start_recorder attach_hooks waiting_timeout execute_recording poll_once
    check_meeting check_timeouts first_reason update_attendees other_count check_no_speaker
    check_no_one_joined check_alone_in_meeting execute_paused execute_resuming wait_once
    execute_cleanup execute_error execute_terminated run step advance new_machine new_context
    set_end_reason set_error should_stop set_paused set_start_time serve serve_request request_stop
    poll do_retry loop build_state_map
run_all = tt

abbrev pub machine : Run → Machine
machine (Run.finished m) = m
machine (Run.running m) = m
machine (Run.no_handler m) = m

abbrev session : Run
session = run (build_state_map deps) rounds (new_machine (new_world config))

-- The session ends normally, with the recorder started and stopped.
session_successful : was_recording_successful (machine session) ≡ true
unfolding run_all was_recording_successful is_normal
session_successful = refl

run-IsClosed_example : IsClosed deps (machine session).world
unfolding run_all
run-IsClosed_example =
    run-IsClosed deps config rounds (machine session) (refl, (refl, (refl, (refl, (refl, tt)))))
      refl

run-IsStarted_example : IsStarted (machine session).world
unfolding run_all was_recording_successful is_normal
run-IsStarted_example = run-IsStarted deps config rounds (machine session) refl refl refl

run-ne-no_attendees_example : (machine session).world.mc.end_reason ≢ some no_attendees
unfolding run_all
run-ne-no_attendees_example =
    run-ne-no_attendees deps config rounds (machine session)
      ((λ e. refl), ((λ e. refl), ((λ e. refl), ((λ e. refl), ((λ e. refl), tt))))) refl

abbrev lobby : Machine
lobby = machine (run (build_state_map deps) (round [] ∷ []) (new_machine (new_world config)))

abbrev in_recording : Machine
in_recording = machine (run (build_state_map deps) joining (new_machine (new_world config)))

abbrev cancelled : Round
cancelled = record { cancelled = true; script = script [] }

step-may_follow_example : (may_follow lobby.current in_call ≡ true) × ((round []).cancelled ≡ false)
unfolding run_all
step-may_follow_example =
    step-may_follow deps (round []) lobby
      (machine
        (run (build_state_map deps) (round [] ∷ round [] ∷ []) (new_machine (new_world config))))
      refl

run_cancelled_example :
    (run (build_state_map deps) (cancelled ∷ []) in_recording
      ≡ finished (record in_recording { current = terminated }))
    × (any is_closing in_recording.world.log ≡ false)
unfolding run_all
run_cancelled_example = run_cancelled deps config joining in_recording cancelled refl refl

abbrev stopped : Script
stopped = script (tick 2000000000 [] ∷ tick 3000000000 (http_stop ∷ []) ∷ [])

abbrev paused_script : Script
paused_script = script (tick 2000000000 (cmd_pause 2000000000 ∷ []) ∷ [])

abbrev resumed : Script
resumed = script (tick 2000000000 (cmd_resume 2000000000 ∷ []) ∷ [])

abbrev world_of : Option (StateType × World) → World
world_of none = in_meeting
world_of (some (next, w)) = w

abbrev paused_world : World
paused_world = world_of (execute_recording deps paused_script in_meeting)

execute_recording-IsExit_example :
    Exits.IsExit paused paused_world.mc × (paused_world.log ≡ in_meeting.log)
unfolding run_all
execute_recording-IsExit_example =
    execute_recording-IsExit deps paused_script in_meeting {next = paused} {w' = paused_world} refl

abbrev long : Script
long = script (tick 2000000000 [] ∷ tick 14401000000000 [] ∷ [])

execute_recording_total_example :
    (r : StateType × World) × (execute_recording deps long in_meeting ≡ some r)
execute_recording_total_example = execute_recording_total deps long in_meeting refl

abbrev resumed_world : World
resumed_world = world_of (execute_paused deps resumed paused_world)

execute_paused-IsExit_example :
    Pausing.IsExit resuming resumed_world.mc
    × (resumed_world.log ≡ (pause_recorder deps paused_world).log)
unfolding run_all
execute_paused-IsExit_example =
    execute_paused-IsExit deps resumed paused_world {next = resuming} {w' = resumed_world} refl

execute_initialization-Decided_example :
    Decided deps
      (script [])
      (new_world config)
      (execute_initialization deps (script []) (new_world config)).0
      (execute_initialization deps (script []) (new_world config)).1
execute_initialization-Decided_example =
    execute_initialization-Decided deps (script []) (new_world config)

abbrev ready : World
ready = (execute_initialization deps (script []) (new_world config)).1
