-- ===== src/Tests/Admissions.antt =====
-- A session whose provider is Meet's, on a page that shows the call's own button.
use meeting_baa_s.Base.{◌≡◌, refl, true, false, Option, none, some, List, [], ◌∷◌, ok, any, str_eq}
use meeting_baa_s.Bot.World.{Script, new_world}
use meeting_baa_s.Bot.Machine.{Machine, Round, run, new_machine, was_recording_successful}
use meeting_baa_s.Bot.States.{build_state_map}
use meeting_baa_s.Meeting.Detector.{detect, detect_rules, detect_rule}
use meeting_baa_s.Meeting.Meet.{
  Dom, Lobby, JoinOptions, Joined, bot_not_accepted, join_meeting, await_admission, decide,
  meet_state_config, click_first, click_join_button, dismiss_popups, click_text_button,
  toggle_button, type_bot_name_with_retry, type_name_loop, name_backoff, sel_leave_call_button,
}
use meeting_baa_s.Meeting.Meet as Meet
use meeting_baa_s.Meeting.Meet.Sessions.{run_unrecorded, JoinsMeet}
use meeting_baa_s.Bot.Machine.Success.{is_recorder_start}
use meeting_baa_s.Tests.Samples.{config, deps, script}
use meeting_baa_s.Tests.Sessions.{run_all, machine}

-- The bot is in the call: its button is in view, and nothing else.
abbrev in_call_page : Dom
in_call_page = record {
  is_visible = λ sel. ok (str_eq sel sel_leave_call_button);
  count = λ sel. 1;
  fill = λ sel. none;
  click = λ sel. none;
}

abbrev patience : Meet.Round
patience = record { context = none; cancelled = false; dom = in_call_page; detected_context = none }

abbrev impatience : Meet.Round
impatience = record patience { cancelled = true }

abbrev lobby : Lobby
lobby = record {
  popups = in_call_page;
  account = in_call_page;
  names = λ n. in_call_page;
  camera = in_call_page;
  join = in_call_page;
  cancelled = false;
  rounds = patience ∷ patience ∷ impatience ∷ [];
}

abbrev options : JoinOptions
options = record { bot_name = "Notetaker"; cancel_check = true; on_join_success = true }

abbrev outcome : Option Joined → Joined
outcome none = record { error = none; success = true; acts = [] }
outcome (some j) = j

abbrev answered : Joined
answered = outcome (join_meeting options (some lobby))

abbrev refused : Script
refused = record (script []) { join_meeting = some bot_not_accepted; join_success = false }

abbrev waiting : Round
waiting = record { cancelled = false; script = refused }

abbrev visits : List Round
visits = waiting ∷ waiting ∷ waiting ∷ waiting ∷ []

abbrev ended : Machine
ended = machine (run (build_state_map deps) visits (new_machine (new_world config)))

join_all : Unit {0}
unfolding join_meeting await_admission decide meet_state_config click_first click_join_button
    dismiss_popups click_text_button toggle_button type_bot_name_with_retry type_name_loop
    name_backoff detect detect_rules detect_rule
join_all = tt

joins : JoinsMeet refused
unfolding join_all
joins = (
  options,
  lobby,
  answered,
  ((false, refl), ((false, refl), ((false, refl), tt))),
  refl,
  refl,
  refl,
)

run_unrecorded_example :
    (any is_recorder_start ended.world.log ≡ false) × (was_recording_successful ended ≡ false)
unfolding run_all
run_unrecorded_example =
    run_unrecorded deps config visits ended refl (joins, (joins, (joins, (joins, tt)))) refl
