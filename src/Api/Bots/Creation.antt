-- ===== src/Api/Bots/Creation.antt =====
-- What a creation leaves behind: jobs that a worker runs, and one bot for one meeting.
use meeting_baa_s.Base.{
  ◌≡◌, refl, ap, ◌≤◌, String, Bool, false, Option, none, some, Result, ok, All, arith, str_eq,
  Bool-cases, Option-cases, Result-cases, not, ◌||◌, inl, inr,
}
use meeting_baa_s.Config.{validate, AutomaticLeave}
use meeting_baa_s.Config.Validity.{validate-none}
use meeting_baa_s.Api.Bots.{
  CreateBotRequest, TimeoutConfigReq, Library, Deps, Outside, Store, Job, OutboxEvent,
  validate_create, check_timeouts, build_timeouts, worker_config,
}
use meeting_baa_s.Api.Bots.Handler.{
  Caller, existing_bot, handle_create, create_valid, persisted, dispatch, enqueue, append_event,
  lock_dedup, new_job,
}

-- The limits of the API, in seconds.
pub record IsTimely (l : AutomaticLeave) : Type 0 where
  pub waiting_room : (120 ≤ l.waiting_room_timeout) × (l.waiting_room_timeout ≤ 1800)
  pub noone_joined : (120 ≤ l.noone_joined_timeout) × (l.noone_joined_timeout ≤ 1800)
  pub silence : (300 ≤ l.silence_timeout) × (l.silence_timeout ≤ 1800)

check_timeouts-IsTimely :
    (t : Option TimeoutConfigReq) → check_timeouts t ≡ none → IsTimely (build_timeouts t)
unfolding build_timeouts
check_timeouts-IsTimely none h = record {
  waiting_room = (omega arith, omega arith);
  noone_joined = (omega arith, omega arith);
  silence = (omega arith, omega arith);
}
check_timeouts-IsTimely (some t) h = record {
  waiting_room = (ground arith, ground arith);
  noone_joined = (ground arith, ground arith);
  silence = (ground arith, ground arith);
}

-- A job that a worker runs: its configuration passes Validate, within the limits.
pub record IsRunnable (lib : Library) (job : Job) : Type 0 where
  pub accepted : (validate lib.trim_space (worker_config job.bot_config)).0 ≡ none
  pub timely : IsTimely job.bot_config.automatic_leave

record IsValid (lib : Library) (req : CreateBotRequest) : Type 0 where
  meeting_url : str_eq (lib.trim_space req.meeting_url) "" ≡ false
  bot_name : str_eq (lib.trim_space req.bot_name) "" ≡ false
  timeouts : check_timeouts req.timeout_config ≡ none

validate_create-IsValid :
    (lib : Library) (req : CreateBotRequest) (scheduled : Bool)
    → validate_create lib req scheduled ≡ none
    → IsValid lib req
unfolding validate_create
validate_create-IsValid lib req scheduled h = record {
  meeting_url = ground arith;
  bot_name = ground arith;
  timeouts = ground arith;
}

new_job-IsRunnable :
    (lib : Library) (id : String) (req : CreateBotRequest)
    → str_eq (lib.trim_space id) "" ≡ false
    → IsValid lib req
    → IsRunnable lib (new_job id req)
unfolding new_job worker_config
new_job-IsRunnable lib id req h v =
    let timely = check_timeouts-IsTimely req.timeout_config v.timeouts in
    let waiting_room = timely.waiting_room in
    let noone_joined = timely.noone_joined in
    let silence = timely.silence in
    record {
      accepted =
          ap (λ p. p.0)
            (validate-none lib.trim_space (worker_config (new_job id req).bot_config) (record {
              meeting_url = v.meeting_url;
              bot_uuid = h;
              bot_name = v.bot_name;
              waiting_room = omega (arith, waiting_room.1);
              noone_joined = omega (arith, noone_joined.1);
              silence = omega (arith, silence.1);
              frequency = inl refl;
            }));
      timely = timely;
    }

append_event-jobs :
    (deps : Deps) (out : Outside) (ev : OutboxEvent) (st : Store)
    → (append_event deps out ev st).jobs ≡ st.jobs
unfolding append_event
append_event-jobs deps out ev st = ground arith

lock_dedup-jobs :
    (lib : Library) (deps : Deps) (out : Outside) (tenant id : String) (req : CreateBotRequest)
    (st : Store)
    → (lock_dedup lib deps out tenant id req st).jobs ≡ st.jobs
unfolding lock_dedup
lock_dedup-jobs lib deps out tenant id req st = ground arith

module _ (lib : Library) (deps : Deps) (out : Outside) (caller : Caller) (scheduled : Bool) where
  dispatch-All :
      (id : String) (req : CreateBotRequest) (st : Store)
      → IsRunnable lib (new_job id req)
      → All (IsRunnable lib) st.jobs
      → All (IsRunnable lib) (dispatch deps out scheduled id req st).1.jobs
  unfolding dispatch enqueue
  dispatch-All id req st r a = elim (Bool-cases (scheduled || not deps.producer)) [
    | inl e ↦ rw e a
    | inr e ↦ elim (Result-cases out.enqueued) [
      | inl (sid, f) ↦ rw (e, f) (r, a)
      | inr (m, f) ↦ rw (e, f) a
    ]
  ]

  persisted-All :
      (id : String) (req : CreateBotRequest) (st : Store)
      → IsRunnable lib (new_job id req)
      → All (IsRunnable lib) st.jobs
      → All (IsRunnable lib) (persisted lib deps out caller scheduled req id st).1.jobs
  unfolding persisted
  persisted-All id req st r a =
      rw (lock_dedup-jobs lib deps out caller.tenant_id id req _)
        (dispatch-All id req _ r (rw (append_event-jobs deps out _ _) a))

  create_valid-All :
      (req : CreateBotRequest) (st : Store)
      → ((id : String) → out.inserted ≡ ok id → str_eq (lib.trim_space id) "" ≡ false)
      → IsValid lib req
      → All (IsRunnable lib) st.jobs
      → All (IsRunnable lib) (create_valid lib deps out caller scheduled req st).1.jobs
  unfolding create_valid
  create_valid-All req st named v a =
      elim (Option-cases (existing_bot lib deps out caller req st)) [
        | inr (id, e) ↦ rw (create_valid, e) a
        | inl e ↦ elim (Bool-cases deps.bots) [
          | inr f ↦ rw (create_valid, e, f) a
          | inl f ↦ elim (Result-cases out.inserted) [
            | inr (m, g) ↦ rw (create_valid, e, f, g) a
            | inl (id, g) ↦
                rw (create_valid, e, f, g)
                  (persisted-All id req st (new_job-IsRunnable lib id req (named id g) v) a)
          ]
        ]
      ]

  -- Where PostgreSQL gives ids that are not blank, a request for a bot, at once or scheduled, leaves
  -- on the stream only jobs whose configuration the worker's Validate accepts, with a waiting room
  -- and a no-one-joined timeout of 120 to 1800 seconds and a silence timeout of 300 to 1800, if
  -- there were only such jobs before.
  pub handle_create-IsRunnable :
      (body : Result CreateBotRequest) (st : Store)
      → ((id : String) → out.inserted ≡ ok id → str_eq (lib.trim_space id) "" ≡ false)
      → All (IsRunnable lib) st.jobs
      → All (IsRunnable lib) (handle_create lib deps out caller scheduled body st).1.jobs
  unfolding handle_create
  handle_create-IsRunnable body st named a = elim (Bool-cases (str_eq caller.tenant_id "")) [
    | inl e ↦ rw e a
    | inr e ↦ elim (Result-cases body) [
      | inr (m, f) ↦ rw (e, f) a
      | inl (req, f) ↦ elim (Option-cases (validate_create lib req scheduled)) [
        | inr (m, g) ↦ rw (e, f, g) a
        | inl g ↦
            rw (e, f, g)
              (create_valid-All req st named (validate_create-IsValid lib req scheduled g) a)
      ]
    ]
  ]
