-- ===== src/Tests/Orders.antt =====
-- Orders of the controller's rounds and its workers' ends.
use meeting_baa_s.Base.{◌≡◌, refl, false, none, some, List, [], ◌∷◌, ok, err}
use meeting_baa_s.Api.Bots.{Job}
use meeting_baa_s.Controller.{
  ControllerOptions, Environment, Queue, remove, ack, read_one, Worker, handle_job, Controller,
  new_controller, apply_controller_env_defaults, Event, round, finished, step, run,
}
use meeting_baa_s.Controller.Slots.{IsSound, run-IsSound}
use meeting_baa_s.Controller.Unacked.{IsStuck, run-IsStuck}

abbrev environment : Environment
environment = record { getenv = λ key. ""; hostname = "host"; atoi = λ s. none; windows = false }

abbrev options : ControllerOptions
options = record {
  redis_addr = "";
  redis_password = "";
  stream = "";
  group = "";
  consumer = "";
  binary_path = "";
  log_dir = "";
  max_parallel = 1;
}

abbrev job : Job
job = record {
  bot_id = "b1";
  bot_uuid = "b1";
  bot_config = record {
    bot_uuid = "b1";
    user_id = 7;
    meeting_url = "https://meet.google.com/abc-defg-hij";
    bot_name = "Notetaker";
    recording_mode = "speaker_view";
    bots_webhook_url = "";
    automatic_leave = record {
      waiting_room_timeout = 600;
      noone_joined_timeout = 600;
      silence_timeout = 600;
    };
    environ = "prod";
  };
}

abbrev queue : Queue
queue = record {
  waiting =
      record { id = "1-0"; payload = ok job }
      ∷ record { id = "2-0"; payload = err "not a job" }
      ∷ record { id = "3-0"; payload = ok job }
      ∷ [];
  pending = [];
}

abbrev crashed : Worker
crashed = record { opened = none; started = none; waited = some "exit status 1"; acked = none }

abbrev clean : Worker
clean = record crashed { waited = none }

run_all : Unit {0}
unfolding apply_controller_env_defaults new_controller remove ack read_one handle_job step run
run_all = tt

abbrev began : Controller
began = run (round none none ∷ []) (new_controller environment options queue)

abbrev rest : List Event
rest = round none none ∷ round none none ∷ round none none ∷ finished "3-0" clean ∷ []

-- The malformed message and the last one are acknowledged, the first is not.
rest_pending : (run rest (step (finished "1-0" crashed) began)).queue.pending ≡ "1-0" ∷ []
unfolding run_all
rest_pending = refl

run-IsSound_example : IsSound (
    run
      (round none none ∷ finished "1-0" crashed ∷ rest)
      (new_controller environment options queue))
run-IsSound_example =
    run-IsSound environment options queue (round none none ∷ finished "1-0" crashed ∷ rest)

run-IsStuck_example : IsStuck "1-0" (run rest (step (finished "1-0" crashed) began))
unfolding run_all
run-IsStuck_example = run-IsStuck "1-0" crashed rest began refl refl refl refl refl
