-- ===== src/Recorder/Processes.antt =====
-- How many ffmpeg processes a recorder has.
use meeting_baa_s.Base.{
  ◌≡◌, refl, ◌+◌, ℕ, suc, String, true, List, [], ◌∷◌, Failure, arith, if◌then◌else◌,
}
use meeting_baa_s.Recorder.{
  ScreenRecorder, ProcessCall, spawn, wait, new, start, stop, pause, resume, has_process,
}

pub data Operation : Type 0 where
  to_start : (spawned : Failure) (now : ℕ) → Operation
  to_stop to_pause to_resume : (signal : Failure) → Operation

unfoldable pub operate : Operation → ScreenRecorder → ScreenRecorder
operate (to_start spawned now) r = (start spawned now r).1
operate (to_stop signal) r = (stop signal r).1
operate (to_pause signal) r = (pause signal r).1
operate (to_resume signal) r = (resume signal r).1

-- The operations stand latest first.
unfoldable pub operations : List Operation → ScreenRecorder → ScreenRecorder
operations [] r = r
operations (o ∷ os) r = operate o (operations os r)

abbrev pub spawned_count : List ProcessCall → ℕ
spawned_count [] = 0
spawned_count (spawn args ∷ cs) = suc (spawned_count cs)
spawned_count (_ ∷ cs) = spawned_count cs

abbrev pub waited_count : List ProcessCall → ℕ
waited_count [] = 0
waited_count (wait ∷ cs) = suc (waited_count cs)
waited_count (_ ∷ cs) = waited_count cs

abbrev pub live : ScreenRecorder → ℕ
live r = if r.running then 1 else 0

record IsBalanced (r : ScreenRecorder) : Type 0 where
  process : r.running ≡ true → has_process r.cmd ≡ true
  count : spawned_count r.calls ≡ waited_count r.calls + live r

operate-IsBalanced : (o : Operation) (r : ScreenRecorder) → IsBalanced r → IsBalanced (operate o r)
unfolding operate start stop pause resume
operate-IsBalanced (to_start spawned now) r b =
    let process = b.process in
    let count = b.count in record { process = λ e. ground arith; count = ground arith }
operate-IsBalanced (to_stop signal) r b =
    let process = b.process in
    let count = b.count in record { process = λ e. ground arith; count = ground arith }
operate-IsBalanced (to_pause signal) r b =
    let process = b.process in
    let count = b.count in record { process = λ e. ground arith; count = ground arith }
operate-IsBalanced (to_resume signal) r b =
    let process = b.process in
    let count = b.count in record { process = λ e. ground arith; count = ground arith }

operations-IsBalanced :
    (os : List Operation) (r : ScreenRecorder) → IsBalanced r → IsBalanced (operations os r)
unfolding operations
operations-IsBalanced [] r b = b
operations-IsBalanced (o ∷ os) r b =
    operate-IsBalanced o (operations os r) (operations-IsBalanced os r b)

-- Whatever operations a new recorder is asked for, and whatever the operating system answers, each
-- process it started has been waited for but the one that runs: there is never a second one.
pub operations-live :
    (os : List Operation) (path display : String)
    → let r = operations os (new path display) in
      spawned_count r.calls ≡ waited_count r.calls + live r
operations-live os path display =
    (operations-IsBalanced os (new path display)
      (unfold new in record { process = λ e. cc; count = refl })).count
