-- ===== src/Browser/Launches.antt =====
-- What any use of the driver leaves running.
use meeting_baa_s.Base.{◌≡◌, refl, ℕ, suc, ◌+◌, Bool, List, [], ◌∷◌, Failure, arith, if◌then◌else◌}
use meeting_baa_s.Browser.{
  ContextOptions, Call, run_playwright, stop_playwright, PlaywrightDriver, new_playwright_driver,
  launch, open_page, close,
}

-- What the driver is asked for, with what Playwright answers.
pub data Operation : Type 0 where
  to_launch : ContextOptions → (ran launched : Failure) → Operation
  to_open : (opened : Failure) → Operation
  to_close : (closed stopped : Failure) → Operation

unfoldable pub operate : Operation → PlaywrightDriver → PlaywrightDriver
operate (to_launch o ran launched) d = (launch o ran launched d).1
operate (to_open opened) d = (open_page opened d).1
operate (to_close closed stopped) d = (close closed stopped d).1

-- The first operation stands last.
unfoldable pub operations : List Operation → PlaywrightDriver → PlaywrightDriver
operations [] d = d
operations (o ∷ os) d = operate o (operations os d)

-- How many runtimes were started and stopped, and how many contexts launched and closed.
abbrev pub started_count : List Call → ℕ
started_count [] = 0
started_count (run_playwright ∷ cs) = suc (started_count cs)
started_count (_ ∷ cs) = started_count cs

abbrev pub stopped_count : List Call → ℕ
stopped_count [] = 0
stopped_count (stop_playwright ∷ cs) = suc (stopped_count cs)
stopped_count (_ ∷ cs) = stopped_count cs

abbrev pub one_if : Bool → ℕ
one_if b = if b then 1 else 0

-- Every runtime that was started was stopped, but for the one of a live context.
pub record IsTidy (d : PlaywrightDriver) : Type 0 where
  pub handles : d.pw ≡ d.context
  pub runtimes : started_count d.calls ≡ stopped_count d.calls + one_if d.context

operate-IsTidy : (o : Operation) (d : PlaywrightDriver) → IsTidy d → IsTidy (operate o d)
unfolding operate launch open_page close
operate-IsTidy (to_launch o ran launched) d t =
    let handles = t.handles in
    let runtimes = t.runtimes in record { handles = ground arith; runtimes = ground arith }
operate-IsTidy (to_open opened) d t =
    let handles = t.handles in
    let runtimes = t.runtimes in record { handles = ground arith; runtimes = ground arith }
operate-IsTidy (to_close closed stopped) d t =
    let handles = t.handles in
    let runtimes = t.runtimes in record { handles = ground arith; runtimes = ground arith }

-- Whatever a new driver is asked for and whatever Playwright answers, a failed launch included, each
-- runtime it started has been stopped but the one of a live context, so that there is never a second,
-- and the two handles are set together.
pub operations-IsTidy : (os : List Operation) → IsTidy (operations os new_playwright_driver)
unfolding operations
operations-IsTidy [] = record { handles = refl; runtimes = refl }
operations-IsTidy (o ∷ os) =
    operate-IsTidy o (operations os new_playwright_driver) (operations-IsTidy os)
