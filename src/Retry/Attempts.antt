-- ===== src/Retry/Attempts.antt =====
-- Which attempts `Do` makes, and how long it sleeps between them.
use meeting_baa_s.Base.{
  ℕ, zero, suc, ◌+◌, ◌-◌, ◌≤◌, ◌<◌, ◌≡◌, refl, sym, ◌∙◌, ◌↔◌, some_inj, false, String, Bool, true,
  none, some, ◌∷◌, All, Failure, arith, is_positive, Option-cases, Bool-cases, inl, inr,
  if◌then◌else◌,
}
use mathlib.Core.Path.{subst}
use Prim.Native.Nat.{max}
use native.Mathlib.Decide.{dec_lt}
use meeting_baa_s.Retry.{Options, Report, retryable, capped, loop, do_retry}

module _ (again : String → Bool) (fn sleep : ℕ → Failure) where
  -- The attempt failed, the error may be retried, and the sleep behind it was not cut short.
  pub record GoesOn (j : ℕ) : Type 0 where
    pub failed : (e : String) × (fn j ≡ some e) × (again e ≡ true)
    pub slept_out : sleep j ≡ none

  -- A report of attempts numbered from `first` to at most `last`.
  pub record Describes (first last : ℕ) (r : Report) : Type 0 where
    pub from : first ≤ r.calls
    pub upto : r.calls ≤ last
    pub earlier : (j : ℕ) → first ≤ j → j < r.calls → GoesOn j
    pub ending : r.calls < last → ¬ GoesOn r.calls
    pub success : (r.error ≡ none) ↔ (fn r.calls ≡ none)

  Describes-later :
      (first last : ℕ) (r : Report) (d : ℕ)
      → GoesOn first
      → Describes (first + 1) last r
      → Describes first last (record r { delays = d ∷ r.delays })
  Describes-later first last r d g h = record {
    from = omega arith;
    upto = h.upto;
    earlier = λ j lo hi. elim (dec_lt first j) [
      | yes p ↦ h.earlier j (omega arith) hi
      | no p ↦ let e : first ≡ j = omega arith in subst GoesOn e g
    ];
    ending = h.ending;
    success = h.success;
  }

  -- The attempt that ends the report.
  Describes-last :
      (first last : ℕ) (r : Report)
      → first ≤ last
      → r.calls ≡ first
      → (first < last → ¬ GoesOn first)
      → (r.error ≡ none) ↔ (fn first ≡ none)
      → Describes first last r
  Describes-last first last r le e stop s = record {
    from = omega arith;
    upto = omega arith;
    earlier = λ j lo hi. absurd (omega arith);
    ending = rw e stop;
    success = rw e s;
  }

  ends : {j : ℕ} (e : String) → fn j ≡ some e → again e ≡ false → ¬ GoesOn j
  ends e bad stop g =
      let (e', bad', more) = g.failed in
      let same : e ≡ e' = some_inj (sym bad ∙ bad') in cc (same, stop, more)

  loop-Describes :
      (left attempt delay most : ℕ) (scale : ℕ → ℕ)
      → Describes attempt (attempt + left) (loop left attempt delay most scale again fn sleep)
  unfolding loop
  loop-Describes zero attempt delay most scale =
      Describes-last attempt (attempt + 0) _ (omega arith) refl (λ more g. absurd (omega arith))
        (λ h. h, λ h. h)
  loop-Describes (suc left) attempt delay most scale =
      let later = loop left (attempt + 1) (capped most (scale delay)) most scale again fn sleep in
      let ih = loop-Describes left (attempt + 1) (capped most (scale delay)) most scale in
      elim (Option-cases (fn attempt)) [
        | inl ok ↦
            rw (ok, loop)
              (Describes-last attempt (attempt + suc left) _ (omega arith) refl
                (λ more g. cc (ok, g.failed.1)) (λ h. ok, λ h. refl))
        | inr (e, bad) ↦ elim (Bool-cases (again e)) [
          | inl more ↦ elim (Option-cases (sleep attempt)) [
            | inl out ↦
                rw (bad, loop)
                  (rw (more, loop)
                    (rw (out, loop)
                      (Describes-later attempt (attempt + suc left) later delay
                        (record { failed = (e, bad, more); slept_out = out })
                        (subst (λ n. Describes (attempt + 1) n later) (omega arith) ih))))
            | inr (s, cut) ↦
                rw (bad, loop)
                  (rw (more, loop)
                    (rw (cut, loop)
                      (Describes-last attempt (attempt + suc left) _ (omega arith) refl
                        (λ m g. cc (cut, g.slept_out)) (λ h. cc, λ h. cc (bad, h)))))
          ]
          | inr stop ↦
              rw (bad, loop)
                (rw (stop, loop)
                  (Describes-last attempt (attempt + suc left) _ (omega arith) refl
                    (λ m g. ends e bad stop g) (λ h. cc, λ h. cc (bad, h))))
        ]
      ]

abbrev pub max_attempts_of : Options → ℕ
max_attempts_of opts = if is_positive opts.max_attempts then opts.max_attempts else 3

abbrev pub longest : Options → ℕ
longest opts =
    let first = if is_positive opts.initial_delay then opts.initial_delay else 1000000000 in
    let most = if is_positive opts.max_delay then opts.max_delay else 30000000000 in max first most

attempts-eq :
    (opts : Options)
    → 1 + ((if is_positive opts.max_attempts then opts.max_attempts else 3) - 1)
      ≡ max_attempts_of opts
attempts-eq opts = ground arith

-- The report of a retry: at least one attempt and at most `MaxAttempts` (3 if that is not
-- positive) are made; each attempt before the last one failed with an error that may be retried,
-- and the sleep behind it ran to its end; the last one, where more were allowed, did not fail so;
-- and the retry succeeds exactly when its last attempt did.
pub do_retry-Describes :
    (opts : Options) (fn sleep : ℕ → Failure)
    → Describes
        (retryable opts.is_retryable)
        fn
        sleep
        1
        (max_attempts_of opts)
        (do_retry opts fn sleep)
unfolding do_retry
do_retry-Describes opts fn sleep =
    subst (λ n. Describes (retryable opts.is_retryable) fn sleep 1 n (do_retry opts fn sleep))
      (attempts-eq opts) (loop-Describes (retryable opts.is_retryable) fn sleep _ 1 _ _ _)

capped-le : (most next : ℕ) → capped most next ≤ most
capped-le most next = ground arith

loop-delays :
    (left attempt delay most bound : ℕ) (scale : ℕ → ℕ) (again : String → Bool)
    (fn sleep : ℕ → Failure)
    → delay ≤ bound
    → most ≤ bound
    → All (λ d. d ≤ bound) (loop left attempt delay most scale again fn sleep).delays
unfolding loop
loop-delays zero attempt delay most bound scale again fn sleep lo hi = tt
loop-delays (suc left) attempt delay most bound scale again fn sleep lo hi = ground (
  arith,
  loop-delays left (attempt + 1) (capped most (scale delay)) most bound scale again fn sleep,
)

-- No sleep between two attempts is longer than the larger of the first delay and `MaxDelay`,
-- whatever the multiplier does to the delay.
do_retry-delays :
    (opts : Options) (fn sleep : ℕ → Failure)
    → All (λ d. d ≤ longest opts) (do_retry opts fn sleep).delays
unfolding do_retry
do_retry-delays opts fn sleep =
    loop-delays _ 1 _ _ (longest opts) _ _ fn sleep (omega arith) (omega arith)
