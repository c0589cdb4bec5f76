-- ===== src/Bot/States/Setup/Reaching.antt =====
-- What the first state comes to, by what the parser, the driver and the page answer:
-- internal/usecase/bot/states/initialization.go.
use meeting_baa_s.Base.{
  ℕ, ◌≤◌, ◌<◌, ◌≡◌, refl, sym, ap, ◌∙◌, inl, inr, true, none, some, Result, ok, err, arith, String,
  Option-cases,
}
use native.Mathlib.Decide.{dec_lt}
use meeting_baa_s.Retry.{Report, retryable, do_retry}
use meeting_baa_s.Retry.Attempts.{GoesOn, Describes, do_retry-Describes}
use meeting_baa_s.Bot.Types.{
  StateType, initialization, error, EndReason, cannot_join_meeting, invalid_meeting_url,
}
use meeting_baa_s.Bot.Context.{Provider, set_error}
use meeting_baa_s.Bot.World.{Script, World, Dependencies, with_mc, emit, launch}
use meeting_baa_s.Bot.Requests.{serve}
use meeting_baa_s.Bot.Requests.Rules.{serve-SameSession}
use meeting_baa_s.Bot.States.Setup.{
  execute_initialization, after_launch, after_open, after_parse, launch_options,
}
use meeting_baa_s.Bot.States.Setup.Outcomes.{IsReady}

-- The n-th of at most three launches gave the browser: those before it failed, and the sleeps behind
-- them ran to their ends.
pub record Launches (s : Script) (n : ℕ) : Type 0 where
  pub from : 1 ≤ n
  pub upto : n ≤ 3
  pub gave : s.launch n ≡ none
  pub earlier : (j : ℕ) → 1 ≤ j → j < n → GoesOn (retryable none) s.launch s.backoff j

-- The session has failed, for a reason.
abbrev pub IsFailed : EndReason → StateType → World → Type 0
IsFailed r next w = (next ≡ error) × (w.mc.has_error ≡ true) × (w.mc.end_reason ≡ some r)

pub data Decided (deps : Dependencies) (s : Script) (w : World) (next : StateType) (w' : World)
    : Type 0 where
  unparsed :
      (e : String)
      → deps.parse_url w.mc.config.meeting_url ≡ err e
      → IsFailed invalid_meeting_url next w'
      → w'.mc.error_message ≡ e
      → Decided deps s w next w'
  unlaunched :
      (p : Provider × String)
      → deps.parse_url w.mc.config.meeting_url ≡ ok p
      → ((n : ℕ) → ¬ Launches s n)
      → IsFailed cannot_join_meeting next w'
      → w'.mc.browser_driver ≡ w.mc.browser_driver
      → Decided deps s w next w'
  unopened :
      (p : Provider × String) (n : ℕ) (e : String)
      → deps.parse_url w.mc.config.meeting_url ≡ ok p
      → Launches s n
      → s.open_page ≡ some e
      → IsFailed cannot_join_meeting next w'
      → w'.mc.browser_driver ≡ true
      → Decided deps s w next w'
  reached :
      (p : Provider × String) (n : ℕ)
      → deps.parse_url w.mc.config.meeting_url ≡ ok p
      → Launches s n
      → s.open_page ≡ none
      → IsReady next w'
      → Decided deps s w next w'

abbrev retried : Script → Report
retried s = do_retry launch_options s.launch s.backoff

described : (s : Script) → Describes (retryable none) s.launch s.backoff 1 3 (retried s)
described s = do_retry-Describes launch_options s.launch s.backoff

retried-Launches : (s : Script) → (retried s).error ≡ none → Launches s (retried s).calls
retried-Launches s e =
    let d = described s in
    record { from = d.from; upto = d.upto; gave = d.success.0 e; earlier = d.earlier }

retried-given_up : (s : Script) (e : String) → (retried s).error ≡ some e → (n : ℕ) → ¬ Launches s n
retried-given_up s e failed n l =
    let d = described s in
    elim (dec_lt n (retried s).calls) [
      | yes p ↦ (let (m, bad, r) = (d.earlier n l.from p).failed in cc (bad, l.gave))
      | no p ↦ elim (dec_lt (retried s).calls n) [
        | yes q ↦
            (let u = l.upto in
              absurd (d.ending (omega arith) (l.earlier (retried s).calls d.from q)))
        | no q ↦
            let same : n ≡ (retried s).calls = omega arith in
            let gave = ap (λ m. s.launch m) (sym same) ∙ l.gave in cc (d.success.1 gave, failed)
      ]
    ]

launch-IsFailed :
    (s : Script) (link e : String) (r : Report) (w : World)
    → r.error ≡ some e
    → let (next, w') = after_launch s link r w in
      IsFailed cannot_join_meeting next w' × (w'.mc.browser_driver ≡ w.mc.browser_driver)
unfolding after_launch set_error
launch-IsFailed s link e r w h = rw (h) ((refl, refl, refl), refl)

launch-IsReady :
    (s : Script) (link : String) (r : Report) (w : World)
    → r.error ≡ none
    → s.open_page ≡ none
    → IsReady (after_launch s link r w).0 (after_launch s link r w).1
unfolding after_launch after_open
launch-IsReady s link r w h o =
    let mc = record w.mc { browser_driver = true } in
    ground (arith, h, o, serve-SameSession initialization s.during mc)

launch-unopened :
    (s : Script) (link e : String) (r : Report) (w : World)
    → r.error ≡ none
    → s.open_page ≡ some e
    → let (next, w') = after_launch s link r w in
      IsFailed cannot_join_meeting next w' × (w'.mc.browser_driver ≡ true)
unfolding after_launch after_open set_error
launch-unopened s link e r w h o =
    let mc = record w.mc { browser_driver = true } in
    ground (arith, h, o, serve-SameSession initialization s.during mc)

module _ (deps : Dependencies) (s : Script) (w : World) where
  parse-Decided :
      (p : Result (Provider × String)) (w0 : World)
      → deps.parse_url w.mc.config.meeting_url ≡ p
      → w0.mc.browser_driver ≡ w.mc.browser_driver
      → Decided deps s w (after_parse s p w0).0 (after_parse s p w0).1
  unfolding after_parse set_error
  parse-Decided (err e) w0 parsed driver = unparsed e parsed (refl, refl, refl) refl
  parse-Decided (ok (provider, link)) w0 parsed driver =
      let mc = record w0.mc { config = record w0.mc.config { meeting_provider = some provider } } in
      let v = emit (launch (retried s).calls (retried s).error) (with_mc mc w0) in
      elim (Option-cases (retried s).error) [
        | inr (e, f) ↦
            let (failed, same) = launch-IsFailed s link e (retried s) v f in
            unlaunched (provider, link) parsed (retried-given_up s e f) failed (same ∙ driver)
        | inl g ↦ elim (Option-cases s.open_page) [
          | inl o ↦
              reached (provider, link) (retried s).calls parsed (retried-Launches s g) o
                (launch-IsReady s link (retried s) v g o)
          | inr (e, o) ↦
              let (failed, opened) = launch-unopened s link e (retried s) v g o in
              unopened (provider, link) (retried s).calls e parsed (retried-Launches s g) o failed
                opened
        ]
      ]

  -- Initialization goes to Error with an invalid URL as its reason and the parser's message where the
  -- URL is not parsed; with an unreachable meeting where none of at most three launches gave the
  -- browser, and the context's driver is then as it was, or where the meeting's page did not open, and
  -- it is then set; and to the waiting room with the browser, the page and the provider where all
  -- three succeeded.
  pub execute_initialization-Decided :
      Decided deps s w (execute_initialization deps s w).0 (execute_initialization deps s w).1
  unfolding execute_initialization
  execute_initialization-Decided =
      let same = serve-SameSession initialization s.before w.mc in
      parse-Decided _ (with_mc (serve initialization s.before w.mc) w)
        (ap (λ c. deps.parse_url c.meeting_url) (sym same.config)) same.browser_driver
