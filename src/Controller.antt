-- ===== src/Controller.antt =====
-- The controller: internal/app/controller.go over the consumer of internal/infra/queue/redis_stream.go.
-- The processes, the files, the environment and Redis are outside: a step holds what it meets there.
pub mod Slots
pub mod Unacked
use meeting_baa_s.Base.{
  ℕ, zero, suc, ◌+◌, ◌-◌, String, Bool, true, false, not, ◌&&◌, ◌||◌, Option, none, some, List, [],
  ◌∷◌, ◌++◌, Result, ok, err, Failure, ltb, leb, ◌==◌, str_eq, is_some, is_positive, if◌then◌else◌,
}
use meeting_baa_s.Api.Bots.{Job, default_str}
use Prim.Native.String

pub record ControllerOptions : Type 0 where
  pub redis_addr : String
  pub redis_password : String
  pub stream : String
  pub group : String
  pub consumer : String
  pub binary_path : String
  pub log_dir : String
  pub max_parallel : ℕ

-- os.Getenv, os.Hostname, strconv.Atoi, and whether the system is Windows.
pub record Environment : Type 0 where
  pub getenv : String → String
  pub hostname : String
  pub atoi : String → Option ℕ
  pub windows : Bool

abbrev pub env_or : Environment → String → String → String
env_or env key default = default_str (env.getenv key) default

unfoldable pub default_worker_binary : Environment → String
default_worker_binary env =
    if env.windows then String.◌++◌ "./bin/bot-worker" ".exe" else "./bin/bot-worker"

abbrev consumer_name : Environment → String
consumer_name env =
    if str_eq (env.getenv "QUEUE_CONSUMER") ""
    then default_str env.hostname "controller-1"
    else env.getenv "QUEUE_CONSUMER"

abbrev parallel_bots : Option ℕ → ℕ
parallel_bots none = 4
parallel_bots (some v) = if is_positive v then v else 4

unfoldable pub apply_controller_env_defaults : Environment → ControllerOptions → ControllerOptions
apply_controller_env_defaults env o = record {
  redis_addr = default_str o.redis_addr (env_or env "REDIS_ADDR" "localhost:6379");
  redis_password = default_str o.redis_password (env.getenv "REDIS_PASSWORD");
  stream = default_str o.stream (env_or env "QUEUE_STREAM" "bots:jobs");
  group = default_str o.group (env_or env "QUEUE_GROUP" "controller");
  consumer = default_str o.consumer (consumer_name env);
  binary_path =
      default_str o.binary_path (env_or env "BOT_WORKER_BINARY" (default_worker_binary env));
  log_dir = default_str o.log_dir (env_or env "BOT_WORKER_LOG_DIR" "./logs");
  max_parallel =
      if is_positive o.max_parallel
      then o.max_parallel
      else parallel_bots (env.atoi (env.getenv "MAX_PARALLEL_BOTS"));
}

-- A file's name: the first part that is not empty, as bytes, or the clock's text.
abbrev pub is_between : ℕ → ℕ → ℕ → Bool
is_between low high ch = leb low ch && leb ch high

abbrev pub is_safe : ℕ → Bool
is_safe ch =
    is_between 97 122 ch || is_between 65 90 ch || is_between 48 57 ch || ch == 45 || ch == 95

unfoldable pub sanitize : List ℕ → List ℕ
sanitize [] = []
sanitize (ch ∷ s) = (if is_safe ch then ch else 95) ∷ sanitize s

unfoldable pub safe_filename : (clock : List ℕ) → List (List ℕ) → List ℕ
safe_filename clock [] = clock
safe_filename clock ([] ∷ parts) = safe_filename clock parts
safe_filename clock ((ch ∷ p) ∷ parts) = sanitize (ch ∷ p)

-- A message of the stream: its id, and what the decoder makes of its payload.
pub record Message : Type 0 where
  pub id : String
  pub payload : Result Job

-- The stream as the group has it: the messages never delivered, and the pending entries, that are
-- delivered and not acknowledged.
pub record Queue : Type 0 where
  pub waiting : List Message
  pub pending : List String

unfoldable pub remove : String → List String → List String
remove id [] = []
remove id (x ∷ xs) = let rest = remove id xs in if str_eq x id then xs else x ∷ rest

-- XACK, or its error.
unfoldable pub ack : (down : Failure) → String → Queue → Failure × Queue
ack (some e) id q = (some (String.◌++◌ "queue: xack: " e), q)
ack none id q = (none, record q { pending = remove id q.pending })

-- ReadOne: an error, a timeout, or a job with its id. A payload that is not a job is acknowledged,
-- its XACK's error dropped, and is an error. `down` is the error of XREADGROUP, `acked` that of XACK.
unfoldable pub read_one : (down acked : Failure) → Queue → Result (Option (Job × String)) × Queue
read_one (some e) acked q = (err (String.◌++◌ "queue: xreadgroup: " e), q)
read_one none acked q = elim q.waiting [
  | [] ↦ (ok none, q)
  | m ∷ ms ↦
      let delivered : Queue = record { waiting = ms; pending = m.id ∷ q.pending } in
      elim m.payload [
        | ok job ↦ (ok (some (job, m.id)), delivered)
        | err e ↦ (err (String.◌++◌ "queue: unmarshal job: " e), (ack acked m.id delivered).1)
      ]
]

-- How a worker went: the log's opening, the start, the exit, and the XACK.
pub record Worker : Type 0 where
  pub opened : Failure
  pub started : Failure
  pub waited : Failure
  pub acked : Failure

unfoldable pub handle_job : Worker → String → Queue → Queue
handle_job w id q =
    if is_some w.opened
    then q
    else if is_some w.started
    then q
    else if is_some w.waited
    then q
    else (ack w.acked id q).1

-- `slots` is how many tokens the channel `parallel` holds, `workers` the ids of the messages whose
-- handleJob goes on.
pub record Controller : Type 0 where
  pub max_parallel : ℕ
  pub slots : ℕ
  pub workers : List String
  pub queue : Queue

-- NewController, once Redis and the group are there.
unfoldable pub new_controller : Environment → ControllerOptions → Queue → Controller
new_controller env o q = record {
  max_parallel = (apply_controller_env_defaults env o).max_parallel;
  slots = 0;
  workers = [];
  queue = q;
}

-- What happens: a round of Run's loop, or the end of a worker, whose slot is then free.
pub data Event : Type 0 where
  round : (down acked : Failure) → Event
  finished : String → Worker → Event

abbrev after_read : Controller → Result (Option (Job × String)) × Queue → Controller
after_read c (err e, q) = record c { queue = q }
after_read c (ok none, q) = record c { queue = q }
after_read c (ok (some (job, id)), q) = record c {
  slots = c.slots + 1;
  workers = id ∷ c.workers;
  queue = q;
}

abbrev pub is_running : String → List String → Bool
is_running id [] = false
is_running id (x ∷ xs) = str_eq x id || is_running id xs

-- A round waits where no slot is free, and gives its slot back where no job came.
unfoldable pub step : Event → Controller → Controller
step (round down acked) c =
    if ltb c.slots c.max_parallel then after_read c (read_one down acked c.queue) else c
step (finished id w) c =
    if is_running id c.workers
    then record c {
      slots = c.slots - 1;
      workers = remove id c.workers;
      queue = handle_job w id c.queue;
    }
    else c

unfoldable pub run : List Event → Controller → Controller
run [] c = c
run (e ∷ es) c = run es (step e c)
