-- ===== src/Tests/Workers.antt =====
-- The process of a bot, from its configuration to its end.
use meeting_baa_s.Base.{
  ◌≡◌, refl, Bool, Option, String, true, false, none, some, List, [], ◌∷◌, Result, ok, err, str_eq,
  if◌then◌else◌,
}
use meeting_baa_s.Config.{validate, with_mode, normalise_recording_mode}
use meeting_baa_s.Config.Validity.{IsComplete}
use meeting_baa_s.Bot.Context.{Provider, meet}
use meeting_baa_s.Bot.Machine.{Run, run}
use meeting_baa_s.Bot.States.{build_state_map}
use meeting_baa_s.Worker.{
  BotWorker, WorkerConfig, BotWorkerOptions, Launched, build_s3_uploader, new_bot_worker,
  run_worker,
}
use meeting_baa_s.Worker.Sessions.{IsLeft, run_worker-IsLeft}
use meeting_baa_s.Meeting.Meet.Observing.{
  handle_all, handle_all-snapshot_names, JsSpeakerData, history,
}
use meeting_baa_s.Speaker.{new_hub, snapshot_names, has_name}
use meeting_baa_s.Speaker.Names.{is_speaking, was_seen}
use meeting_baa_s.Tests.Samples.{rounds}
use meeting_baa_s.Tests.Sessions.{run_all, machine}

abbrev settings : WorkerConfig
settings = record {
  checked = record {
    meeting_url = "https://meet.google.com/abc-defg-hij";
    bot_uuid = "b1";
    bot_name = "Notetaker";
    recording_mode = "SpeakerView";
    environ = "prod";
    streaming_audio_frequency = 0;
    automatic_leave = record {
      waiting_room_timeout = 600;
      noone_joined_timeout = 120;
      silence_timeout = 300;
    };
    user_token = "";
    bots_api_key = "";
    speech_to_text_api_key = "";
    zoom_sdk_pwd = "";
    secret = "";
  };
  meeting_provider = none;
  webhook_url = "https://example.com/hook";
  local_recording_server_location = "";
  mp4_s3_path = "b1.mp4";
}

abbrev options : BotWorkerOptions
options = record {
  http_addr = "";
  browser_opts = record { resolution = "720"; headless = false; permissions_microphone = false };
}

abbrev getenv : String → String
getenv key = if str_eq key "S3_BUCKET" then "recordings" else ""

abbrev parser : String → Result (Provider × String)
parser url = ok (meet, url)

abbrev worker : BotWorker
worker = new_bot_worker getenv none parser settings options

abbrev ended : Run
ended = run (build_state_map worker.deps) rounds worker.machine

abbrev launch : Launched
launch = record {
  cfg = record settings { checked = with_mode settings.checked };
  http = some ":8080";
  channel = none;
  ended = ended;
}

run_worker-IsLeft_example :
    IsComplete (λ s. s) settings.checked
    × (launch.cfg.checked ≡ with_mode settings.checked)
    × IsLeft getenv (λ s. s) none parser settings (machine ended).world
unfolding run_all run_worker new_bot_worker validate normalise_recording_mode build_s3_uploader
run_worker-IsLeft_example =
    run_worker-IsLeft getenv (λ s. s) none parser settings options options rounds launch
      (machine ended) (refl, (refl, (refl, (refl, (refl, tt))))) refl refl

abbrev speaking : Bool → String → JsSpeakerData
speaking b name = record { name = name; id = 1; speaking = b; timestamp = 0 }

-- Ada speaks, then a payload that is no list, then Grace takes over.
abbrev payloads : List (Option (Result (List JsSpeakerData)))
payloads =
    some (ok (speaking true "Ada" ∷ []))
    ∷ some (err "not a list")
    ∷ some (ok (speaking false "Ada" ∷ speaking true "Grace" ∷ []))
    ∷ []

handle_all-snapshot_names_example :
    let (active, all) = snapshot_names (handle_all payloads new_hub).manager in
    (has_name "Ada" active ≡ is_speaking "Ada" (history payloads []))
    × (has_name "Ada" all ≡ was_seen "Ada" (history payloads []))
unfolding new_hub
handle_all-snapshot_names_example = handle_all-snapshot_names "Ada" payloads new_hub refl refl
