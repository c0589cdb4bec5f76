-- ===== src/Worker/Sessions.antt =====
-- A session from the process's start to its end.
use meeting_baa_s.Base.{
  ◌≡◌, refl, ap, ◌∙◌, sym, String, true, false, none, some, List, Result, ok, Failure, All, any,
}
use meeting_baa_s.Config
use meeting_baa_s.Config.{validate, with_mode}
use meeting_baa_s.Config.Validity.{IsComplete, validate_accepts}
use meeting_baa_s.Bot.Context.{Provider}
use meeting_baa_s.Bot.World.{World}
use meeting_baa_s.Bot.Machine
use meeting_baa_s.Bot.States.{build_state_map}
use meeting_baa_s.Bot.Machine.{Machine, Round, finished}
use meeting_baa_s.Bot.Machine.Launched.{is_launched}
use meeting_baa_s.Bot.Machine.Ending.{
  is_recorder_stop, is_upload, is_send_complete, is_close_browser, run-IsClosed,
}
use meeting_baa_s.Worker.{
  WorkerConfig, BotWorkerOptions, BotWorker, Launched, build_s3_uploader, has_uploader, is_set,
  session_config, new_bot_worker, validated, run_worker,
}

ok_inj {ℓ} : {A : Type ℓ} {a b : A} → ok a ≡ ok b → a ≡ b
ok_inj h = cc

module _ (getenv trim_space : String → String) (client : Failure)
    (parse_url : String → Result (Provider × String)) where
  -- What a session leaves behind.
  pub record IsLeft (c : WorkerConfig) (w : World) : Type 0 where
    pub recorder : any is_recorder_stop w.log ≡ true
    pub uploader : any is_upload w.log ≡ has_uploader (build_s3_uploader getenv client)
    pub webhook : any is_send_complete w.log ≡ is_set c.webhook_url
    pub browser : any is_close_browser w.log ≡ any is_launched w.log

  abbrev worker : WorkerConfig → BotWorkerOptions → BotWorker
  worker = new_bot_worker getenv client parse_url

  run-IsLeft :
      (c : WorkerConfig) (opts : BotWorkerOptions) (rounds : List Round) (m : Machine)
      → All (λ r. r.cancelled ≡ false) rounds
      → Machine.run (build_state_map (worker c opts).deps) rounds (worker c opts).machine
        ≡ finished m
      → IsLeft c m.world
  unfolding new_bot_worker
  run-IsLeft c opts rounds m live e =
      let closed = run-IsClosed (worker c opts).deps (session_config c) rounds m live e in
      record {
        recorder = closed.recorder;
        uploader = closed.uploader;
        webhook = closed.webhooker;
        browser = closed.browser;
      }

  validated-ok :
      (a : BotWorker) (rounds : List Round) (v : Failure × Config.BotConfig) (l : Launched)
      → validated getenv a rounds v ≡ ok l
      → (v.0 ≡ none)
        × (l.ended ≡ Machine.run (build_state_map a.deps) rounds a.machine)
        × (l.cfg.checked ≡ v.1)
  validated-ok a rounds (none, c) l h =
      let made = ok_inj h in
      (refl, sym (ap (λ x. x.ended) made), sym (ap (λ x. x.cfg.checked) made))
  validated-ok a rounds (some e, c) l h = absurd cc

  -- A worker whose Run gets past the validation has a configuration that is complete, of which only
  -- the recording mode was changed. When its session ends, and its context was not cancelled at the
  -- head of a round, the recorder was told to stop, the upload was tried where the environment names
  -- a bucket and the credentials and the client could be made, the completion webhook where the
  -- configuration has its URL, and nowhere else, and the browser was closed exactly where a launch of one returned without an
  -- error.
  pub run_worker-IsLeft :
      (c : WorkerConfig) (opts opts' : BotWorkerOptions) (rounds : List Round) (l : Launched)
      (m : Machine)
      → All (λ r. r.cancelled ≡ false) rounds
      → run_worker getenv trim_space (worker c opts) opts' rounds ≡ ok l
      → l.ended ≡ finished m
      → IsComplete trim_space c.checked × (l.cfg.checked ≡ with_mode c.checked) × IsLeft c m.world
  unfolding run_worker new_bot_worker
  run_worker-IsLeft c opts opts' rounds l m live h e =
      let v = validate trim_space c.checked in
      let (valid, ended, checked) = validated-ok (worker c opts) rounds v l h in
      let complete = (validate_accepts trim_space c.checked).0.0 valid in
      let left = (validate_accepts trim_space c.checked).1.1 complete in
      (complete, checked ∙ ap (λ p. p.1) left, run-IsLeft c opts rounds m live (sym ended ∙ e))
