-- ===== src/Retry.antt =====
-- `Do` of internal/pkg/retry/retry.go, over the attempts of the caller's function and the sleeps
-- between them. `Multiplier` is a float: it enters as the function `scale` that
-- `time.Duration(float64(delay) * opts.Multiplier)` computes, and the default of 2.0 as doubling,
-- which is exact on the delays that are kept (a float64 holds every integer up to 2 ^ 53).
pub mod Attempts
use meeting_baa_s.Base.{
  ℕ, zero, suc, ◌+◌, ◌-◌, ◌*◌, String, Bool, true, false, Option, none, some, List, [], ◌∷◌, ltb,
  is_positive, positive_or, Failure, if◌then◌else◌, not,
}
use Prim.Native.String

-- `MaxAttempts`, `InitialDelay` and `MaxDelay` are 64-bit words; `none` is an unset multiplier or
-- one that is not positive, and an unset `IsRetryable`.
pub record Options : Type 0 where
  pub max_attempts : ℕ
  pub initial_delay : ℕ
  pub max_delay : ℕ
  pub scale : Option (ℕ → ℕ)
  pub is_retryable : Option (String → Bool)

pub record Report : Type 0 where
  pub error : Failure
  pub calls : ℕ
  pub delays : List ℕ

abbrev double : ℕ → ℕ
double d = d * 2

abbrev scale_or : Option (ℕ → ℕ) → ℕ → ℕ
scale_or none = double
scale_or (some f) = f

abbrev pub retryable : Option (String → Bool) → String → Bool
retryable none e = true
retryable (some f) e = f e

-- `errors.Join`: one message to a line.
abbrev join : String → String → String
join e s = String.◌++◌ e (String.◌++◌ "\n" s)

abbrev pub capped : ℕ → ℕ → ℕ
capped most next = if ltb most next then most else next

abbrev slept : ℕ → Report → Report
slept delay r = record r { delays = delay ∷ r.delays }

-- `fn attempt` is the error of that attempt, `sleep attempt` that of the sleep behind it. The first
-- argument counts the attempts that may follow this one.
unfoldable pub loop :
    (left attempt delay most : ℕ) (scale : ℕ → ℕ) (again : String → Bool) (fn sleep : ℕ → Failure)
    → Report
loop zero attempt delay most scale again fn sleep = record {
  error = fn attempt;
  calls = attempt;
  delays = [];
}
loop (suc left) attempt delay most scale again fn sleep =
    let rest = loop left (attempt + 1) (capped most (scale delay)) most scale again fn sleep in
    elim (fn attempt) [
      | none ↦ record { error = none; calls = attempt; delays = [] }
      | some e ↦
          if not (again e)
          then record { error = some e; calls = attempt; delays = [] }
          else elim (sleep attempt) [
            | none ↦ slept delay rest
            | some s ↦ record { error = some (join e s); calls = attempt; delays = delay ∷ [] }
          ]
    ]

-- `Do`, its defaults filled in.
unfoldable pub do_retry : Options → (ℕ → Failure) → (ℕ → Failure) → Report
unfolding loop
do_retry opts fn sleep =
    loop (positive_or 3 opts.max_attempts - 1) 1 (positive_or 1000000000 opts.initial_delay)
      (positive_or 30000000000 opts.max_delay) (scale_or opts.scale) (retryable opts.is_retryable)
      fn sleep
