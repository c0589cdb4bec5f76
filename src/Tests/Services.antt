-- ===== src/Tests/Services.antt =====
-- Calls of the services: retries, webhooks, the idempotency of the API, configurations, the state
-- detector and the recorder.
use meeting_baa_s.Base.{
  ◌≡◌, refl, ◌≤◌, ◌<◌, ◌+◌, ◌==◌, ℕ, String, true, false, none, some, List, [], ◌∷◌, Result, ok,
  err, Failure, str_eq, if◌then◌else◌, ◌⊎◌, ◌↔◌,
}
use meeting_baa_s.Retry.{Options, do_retry, retryable}
use meeting_baa_s.Retry.Attempts.{Describes, max_attempts_of, do_retry-Describes}
use meeting_baa_s.Webhook.{SenderOptions, Sender, new_sender, Try, send}
use meeting_baa_s.Webhook.Breaker.{Call, failed, calls, streak, calls-streak, new_sender-IsSound}
use meeting_baa_s.Webhook.Sending.{Sends, send-Sends}
use meeting_baa_s.Idempotency.{
  Table, Request, Outside, replayed, refused, header, bytes, idempotency, capture, new_capture,
  body_of, write, write_header,
}
use meeting_baa_s.Idempotency.Replays.{repeated, idempotency_replays, idempotency_sticks}
use meeting_baa_s.Config.{BotConfig, validate, masked_clone, with_mode}
use meeting_baa_s.Config.Validity.{IsComplete, validate_accepts, masked_clone_hides}
use meeting_baa_s.Meeting.Detector.{StateRule, Page, detect, detect_rules, detect_rule}
use meeting_baa_s.Recorder.{new}
use meeting_baa_s.Recorder.Processes.{
  Operation, to_start, to_stop, to_pause, to_resume, operations, spawned_count, waited_count, live,
  operations-live,
}

-- Three attempts, of which the third succeeds.
abbrev options : Options
options = record {
  max_attempts = 3;
  initial_delay = 1000000000;
  max_delay = 30000000000;
  scale = none;
  is_retryable = none;
}

abbrev third : ℕ → Failure
third n = if n == 3 then none else some "launch failed"

abbrev awake : ℕ → Failure
awake n = none

do_retry-Describes_example :
    Describes
      (retryable options.is_retryable)
      third
      awake
      1
      (max_attempts_of options)
      (do_retry options third awake)
do_retry-Describes_example = do_retry-Describes options third awake

-- A breaker of two failures.
abbrev sender_options : SenderOptions
sender_options = record { timeout = 0; max_retries = 0; max_failures = 2; reset_timeout = 0 }

abbrev two_failures : List Call
two_failures = failed 20 ∷ failed 10 ∷ []

calls-streak_example :
    let s = calls two_failures (new_sender sender_options) in
    ((s.circuit_open ≡ true) × (s.max_failures ≤ streak two_failures))
    ⊎ ((s.circuit_open ≡ false) × (s.failures < s.max_failures))
calls-streak_example = calls-streak two_failures sender_options

-- The server answers 200 at once.
abbrev accepted : ℕ → Try
accepted n = record { context = none; build = none; response = ok 200; at = 5 }

abbrev hook : String
hook = "https://example.com/hook"

send-Sends_example : Sends hook (send none 0 accepted hook (new_sender sender_options))
send-Sends_example =
    send-Sends none 0 accepted hook (new_sender sender_options) (new_sender-IsSound sender_options)

abbrev opened : Sender
opened = calls two_failures (new_sender sender_options)

abbrev pub create : Request
create = record { method = "POST"; key = "k1"; tenant = "t1"; body = ok "{}" }

abbrev pub empty : Table
empty tenant key = none

abbrev pub sha256_of : String → String
sha256_of s = s

abbrev pub jsonb_of : String → Result String
jsonb_of s = if str_eq s "created" then err "invalid input syntax for type json" else ok s

abbrev pub writes : String → Outside
writes text = record {
  insert = none;
  select = none;
  update = none;
  handler = header 201 ∷ bytes text ∷ [];
}

idempotency_replays_example :
    let t = (idempotency sha256_of jsonb_of true (writes "[]") create empty).1 in
    idempotency sha256_of jsonb_of true (writes "[1]") create t
    ≡ (replayed (capture (writes "[]").handler new_capture).status (body_of "[]"), t)
unfolding capture write write_header
idempotency_replays_example =
    idempotency_replays sha256_of jsonb_of (writes "[]") (writes "[1]") create "{}" "[]" empty
      (refl, refl) refl refl refl refl refl refl refl

idempotency_sticks_example :
    let t = (idempotency sha256_of jsonb_of true (writes "created") create empty).1 in
    repeated sha256_of jsonb_of (writes "created" ∷ writes "[]" ∷ []) create t
    ≡ (refused 409 "CONFLICT" ∷ refused 409 "CONFLICT" ∷ [], t)
unfolding capture write write_header
idempotency_sticks_example =
    idempotency_sticks sha256_of jsonb_of (writes "created") (writes "created" ∷ writes "[]" ∷ [])
      create "{}" "invalid input syntax for type json" empty (refl, refl) refl refl refl refl
      ((refl, refl), ((refl, refl), tt))

abbrev trimmed : String → String
trimmed s = s

abbrev bot_config : BotConfig
bot_config = record {
  meeting_url = "https://meet.google.com/abc-defg-hij";
  bot_uuid = "b1";
  bot_name = "Notetaker";
  recording_mode = "GalleryView";
  environ = "local";
  streaming_audio_frequency = 24000;
  automatic_leave = record {
    waiting_room_timeout = 600;
    noone_joined_timeout = 120;
    silence_timeout = 300;
  };
  user_token = "u-secret";
  bots_api_key = "k-secret";
  speech_to_text_api_key = "";
  zoom_sdk_pwd = "";
  secret = "s-secret";
}

validate_accepts_example :
    ((validate trimmed bot_config).0 ≡ none ↔ IsComplete trimmed bot_config)
    × ((validate trimmed bot_config ≡ (none, with_mode bot_config)) ↔ IsComplete trimmed bot_config)
validate_accepts_example = validate_accepts trimmed bot_config

abbrev other_config : BotConfig
other_config = record bot_config { user_token = "v"; bots_api_key = "w"; secret = "x" }

masked_clone_hides_example :
    masked_clone (record bot_config {
      user_token = other_config.user_token;
      bots_api_key = other_config.bots_api_key;
      speech_to_text_api_key = other_config.speech_to_text_api_key;
      zoom_sdk_pwd = other_config.zoom_sdk_pwd;
      secret = other_config.secret;
    })
    ≡ masked_clone bot_config
masked_clone_hides_example = masked_clone_hides bot_config other_config refl refl refl refl refl

-- The lobby is gone and the bot is in the call.
abbrev page : Page
page sel = ok (str_eq sel "#call")

abbrev states : List StateRule
states =
    record { name = "waiting_room"; any_of = "#lobby" ∷ []; evaluate_timeout = 0 }
    ∷ record { name = "in_call"; any_of = "#call" ∷ []; evaluate_timeout = 0 }
    ∷ []

-- The visible second state is not found.
detect_misses : detect (some page) none states ≡ ("", none)
unfolding detect detect_rules detect_rule
detect_misses = refl

abbrev recording : List Operation
recording = to_start none 9 ∷ to_stop none ∷ to_resume none ∷ to_pause none ∷ to_start none 1 ∷ []

operations-live_example :
    let r = operations recording (new "" "") in
    spawned_count r.calls ≡ waited_count r.calls + live r
operations-live_example = operations-live recording "" ""
