-- ===== src/Webhook/Breaker.antt =====
-- The circuit breaker of the sender: what its three operations keep, in whatever order concurrent
-- deliveries call them.
use meeting_baa_s.Base.{
  ◌≡◌, refl, ◌≤◌, ◌<◌, ℕ, suc, true, false, List, [], ◌∷◌, arith, ◌∙◌, ◌⊎◌, inr, All, length, inl,
  Bool-cases,
}
use meeting_baa_s.Webhook.{
  Sender, SenderOptions, new_sender, is_circuit_open, record_failure, record_success,
}

-- One call of an operation under the mutex, with the clock it reads.
pub data Call : Type 0 where
  ask failed : (at : ℕ) → Call
  succeeded : Call

abbrev pub call : Call → Sender → Sender
call (ask at) s = (is_circuit_open at s).1
call (failed at) s = record_failure at s
call succeeded s = record_success s

-- The calls stand latest first.
unfoldable pub calls : List Call → Sender → Sender
calls [] s = s
calls (c ∷ cs) s = call c (calls cs s)

-- How many failures were recorded since the last success.
unfoldable pub streak : List Call → ℕ
streak [] = 0
streak (failed at ∷ cs) = suc (streak cs)
streak (ask at ∷ cs) = streak cs
streak (succeeded ∷ cs) = 0

-- What a sender keeps: a breaker that is closed has room for one more failure.
pub record IsSound (s : Sender) : Type 0 where
  pub allows : 0 < s.max_failures
  pub fits : s.max_failures < 9223372036854775808
  pub room : s.circuit_open ≡ false → s.failures < s.max_failures

pub new_sender-IsSound : (opts : SenderOptions) → IsSound (new_sender opts)
unfolding new_sender
new_sender-IsSound opts = record {
  allows = ground arith;
  fits = ground arith;
  room = λ e. ground arith;
}

max_failures-call : (c : Call) (s : Sender) → (call c s).max_failures ≡ s.max_failures
unfolding is_circuit_open record_failure record_success
max_failures-call (ask at) s = ground arith
max_failures-call (failed at) s = refl
max_failures-call succeeded s = refl

call-room :
    (c : Call) (s : Sender)
    → IsSound s
    → (call c s).circuit_open ≡ false
    → (call c s).failures < s.max_failures
unfolding is_circuit_open record_failure record_success
call-room (ask at) s i e =
    let allows = i.allows in let fits = i.fits in let room = i.room in ground arith
call-room (failed at) s i e =
    let allows = i.allows in let fits = i.fits in let room = i.room in ground arith
call-room succeeded s i e = i.allows

-- Every operation of the breaker keeps a sender sound.
pub call-IsSound : (c : Call) (s : Sender) → IsSound s → IsSound (call c s)
call-IsSound c s i = record {
  allows = rw (max_failures-call c s) i.allows;
  fits = rw (max_failures-call c s) i.fits;
  room = rw (max_failures-call c s) (call-room c s i);
}

max_failures-calls : (cs : List Call) (s : Sender) → (calls cs s).max_failures ≡ s.max_failures
unfolding calls
max_failures-calls [] s = refl
max_failures-calls (c ∷ cs) s = max_failures-call c (calls cs s) ∙ max_failures-calls cs s

calls-IsSound : (cs : List Call) (s : Sender) → IsSound s → IsSound (calls cs s)
unfolding calls
calls-IsSound [] s i = i
calls-IsSound (c ∷ cs) s i = call-IsSound c (calls cs s) (calls-IsSound cs s i)

record Counts (cs : List Call) (s : Sender) : Type 0 where
  counted : s.failures ≤ streak cs
  opened : s.circuit_open ≡ true → s.max_failures ≤ streak cs

call-Counts : (c : Call) (cs : List Call) (s : Sender) → Counts cs s → Counts (c ∷ cs) (call c s)
unfolding is_circuit_open record_failure record_success streak
call-Counts (ask at) cs s k =
    let counted = k.counted in
    let opened = k.opened in record { counted = ground arith; opened = λ e. ground arith }
call-Counts (failed at) cs s k =
    let counted = k.counted in
    let opened = k.opened in record { counted = ground arith; opened = λ e. ground arith }
call-Counts succeeded cs s k = record { counted = ground arith; opened = λ e. cc }

calls-Counts :
    (cs : List Call) (s : Sender) → s.failures ≡ 0 → s.circuit_open ≡ false → Counts cs (calls cs s)
unfolding calls
calls-Counts [] s z c = record { counted = ground arith; opened = λ e. cc (e, c) }
calls-Counts (c ∷ cs) s z e = call-Counts c cs (calls cs s) (calls-Counts cs s z e)

-- Whatever order concurrent deliveries call a new sender in: an open breaker has recorded, since the
-- last success, at least as many failures as it allows, and a closed one counts fewer than that.
pub calls-streak :
    (cs : List Call) (opts : SenderOptions)
    → let s = calls cs (new_sender opts) in
      ((s.circuit_open ≡ true) × (s.max_failures ≤ streak cs))
      ⊎ ((s.circuit_open ≡ false) × (s.failures < s.max_failures))
calls-streak cs opts =
    let s = calls cs (new_sender opts) in
    let counts =
      calls-Counts cs (new_sender opts) (unfold new_sender in refl) (unfold new_sender in refl) in
    elim (Bool-cases s.circuit_open) [
      | inl e ↦ inl (e, counts.opened e)
      | inr e ↦ inr (e, (calls-IsSound cs (new_sender opts) (new_sender-IsSound opts)).room e)
    ]

abbrev IsFailed : Call → Type 0
IsFailed c = (at : ℕ) × (c ≡ failed at)

fail_once :
    (at n : ℕ) (s : Sender)
    → IsSound s
    → (s.circuit_open ≡ true) ⊎ (n ≤ s.failures)
    → ((record_failure at s).circuit_open ≡ true) ⊎ (suc n ≤ (record_failure at s).failures)
unfolding record_failure
fail_once at n s i h =
    let allows = i.allows in let fits = i.fits in let room = i.room in ground arith

calls_fail :
    (cs : List Call) (s : Sender)
    → IsSound s
    → All IsFailed cs
    → ((calls cs s).circuit_open ≡ true) ⊎ (length cs ≤ (calls cs s).failures)
unfolding calls
calls_fail [] s i a = inr (omega arith)
calls_fail (c ∷ cs) s i ((at, e), a) =
    rw e (fail_once at (length cs) (calls cs s) (calls-IsSound cs s i) (calls_fail cs s i a))

-- As many failures in a row as a sound sender allows open its breaker.
calls_open :
    (cs : List Call) (s : Sender)
    → IsSound s
    → All IsFailed cs
    → s.max_failures ≤ length cs
    → (calls cs s).circuit_open ≡ true
calls_open cs s i a h =
    let room = (calls-IsSound cs s i).room in
    let same = max_failures-calls cs s in ground (arith, calls_fail cs s i a)
