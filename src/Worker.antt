-- ===== src/Worker.antt =====
-- The process of one bot: internal/app/botworker.go, with the client of
-- internal/infra/storage/s3/client.go. The environment, the connections and the SDK of S3 are outside.
-- What runs beside the machine are the requests of Bot/World.antt.
pub mod Commands
pub mod Sessions
pub mod Uploads
use meeting_baa_s.Base.{
  String, Bool, true, false, ◌||◌, Option, none, some, List, [], ◌∷◌, Result, ok, err, Failure,
  str_eq, if◌then◌else◌,
}
use meeting_baa_s.Config
use meeting_baa_s.Config.{validate}
use meeting_baa_s.Bot.Context.{Provider, BotConfig}
use meeting_baa_s.Bot.World.{Dependencies, new_world}
use meeting_baa_s.Bot.States.{build_state_map}
use meeting_baa_s.Bot.Machine
use meeting_baa_s.Bot.Machine.{Machine, Round, new_machine}
use meeting_baa_s.Recorder
use meeting_baa_s.Recorder.{ScreenRecorder}
use Prim.Native.String

-- The configuration: what `Validate` reads, and what the wiring does.
pub record WorkerConfig : Type 0 where
  pub checked : Config.BotConfig
  pub meeting_provider : Option Provider
  pub webhook_url : String
  pub local_recording_server_location : String
  pub mp4_s3_path : String

pub record BrowserLaunchOptions : Type 0 where
  pub resolution : String
  pub headless : Bool
  pub permissions_microphone : Bool

pub record BotWorkerOptions : Type 0 where
  pub http_addr : String
  pub browser_opts : BrowserLaunchOptions

-- What the states read of the configuration.
abbrev pub session_config : WorkerConfig → BotConfig
session_config c = record {
  meeting_url = c.checked.meeting_url;
  meeting_provider = c.meeting_provider;
  bot_name = c.checked.bot_name;
  automatic_leave = record {
    waiting_room_timeout = c.checked.automatic_leave.waiting_room_timeout;
    noone_joined_timeout = c.checked.automatic_leave.noone_joined_timeout;
    silence_timeout = c.checked.automatic_leave.silence_timeout;
  };
}

-- Whether there is an uploader, or why not. `client` is the error of s3.NewClient.
unfoldable pub build_s3_uploader : (getenv : String → String) → (client : Failure) → Result Bool
build_s3_uploader getenv client =
    if str_eq (getenv "S3_BUCKET") ""
    then ok false
    else if str_eq (getenv "AWS_ACCESS_KEY_ID") "" || str_eq (getenv "AWS_SECRET_ACCESS_KEY") ""
    then err "AWS_ACCESS_KEY_ID / AWS_SECRET_ACCESS_KEY not set"
    else elim client [ some e ↦ err (String.◌++◌ "s3 client: " e) | none ↦ ok true ]

-- An error only disables the uploader.
abbrev pub has_uploader : Result Bool → Bool
has_uploader (ok b) = b
has_uploader (err e) = false

abbrev or_default : String → String → String
or_default default s = if str_eq s "" then default else s

unfoldable pub recording_path : WorkerConfig → String
recording_path c =
    String.◌++◌ (or_default "/tmp/recordings" c.local_recording_server_location)
      (String.◌++◌ "/" (String.◌++◌ c.checked.bot_uuid ".mp4"))

abbrev pub is_set : String → Bool
is_set s = if str_eq s "" then false else true

pub record BotWorker : Type 0 where
  pub cfg : WorkerConfig
  pub http_addr : String
  pub browser_opts : BrowserLaunchOptions
  pub recorder : ScreenRecorder
  pub deps : Dependencies
  pub machine : Machine

-- The audio capture, the speakers observer and the dialog observer are attached in this order.
unfoldable pub new_bot_worker :
    (getenv : String → String)
    → (client : Failure) → (parse_url : String → Result (Provider × String)) → WorkerConfig
    → BotWorkerOptions
    → BotWorker
new_bot_worker getenv client parse_url cfg opts = record {
  cfg = cfg;
  http_addr = or_default ":8080" opts.http_addr;
  browser_opts = opts.browser_opts;
  recorder = Recorder.new (recording_path cfg) "";
  deps = record {
    parse_url = parse_url;
    recorder = true;
    uploader = has_uploader (build_s3_uploader getenv client);
    webhooker = is_set cfg.webhook_url;
    page_hooks = true ∷ true ∷ true ∷ [];
    speakers = true;
  };
  machine = new_machine (new_world (session_config cfg));
}

-- What `Run` has done: the control plane it running_worker, and the channel it subscribed to.
pub record Launched : Type 0 where
  pub cfg : WorkerConfig
  pub http : Option String
  pub channel : Option String
  pub ended : Machine.Run

unfoldable pub command_channel : WorkerConfig → String
command_channel c = String.◌++◌ "bot:cmd:" c.checked.bot_uuid

abbrev running_worker :
    (getenv : String → String) → BotWorker → WorkerConfig → List Round → Launched
running_worker getenv a cfg rounds = record {
  cfg = cfg;
  http = some a.http_addr;
  channel = if str_eq (getenv "REDIS_ADDR") "" then none else some (command_channel cfg);
  ended = Machine.run (build_state_map a.deps) rounds a.machine;
}

abbrev pub validated :
    (getenv : String → String)
    → BotWorker
    → List Round
    → Failure × Config.BotConfig
    → Result Launched
validated getenv a rounds (some e, c) = err (String.◌++◌ "app: validate config: " e)
validated getenv a rounds (none, c) =
    ok (running_worker getenv a (record a.cfg { checked = c }) rounds)

-- The options are not read. `Validate` changes the configuration only where the states do not look.
unfoldable pub run_worker :
    (getenv trim_space : String → String)
    → BotWorker
    → BotWorkerOptions
    → List Round
    → Result Launched
run_worker getenv trim_space a opts rounds =
    validated getenv a rounds (validate trim_space a.cfg.checked)
