-- ===== src/Webhook/Sending.antt =====
-- What one call of Send comes to.
use meeting_baa_s.Base.{
  ◌≡◌, refl, ◌≤◌, ◌<◌, ◌+◌, ◌⊎◌, inl, inr, ℕ, zero, suc, String, true, false, none, some, Result,
  ok, err, Failure, arith, str_eq, Option-cases, ◌-◌, is_some,
}
use meeting_baa_s.Webhook.{
  Sender, Try, Delivery, return, SendError, no_error, judge, deliver, quiet, send, is_circuit_open,
  record_success, breaker_open, turn,
}
use meeting_baa_s.Webhook.Breaker.{IsSound, call-IsSound, ask, failed, succeeded}

abbrev pub IsReset : Sender → Type 0
IsReset s = (s.failures ≡ 0) × (s.circuit_open ≡ false)

record Ends (left : ℕ) (d d' : Delivery) : Type 0 where
  few : d'.posted ≤ d.posted + left
  sound : IsSound d.sender → IsSound d'.sender
  done : d'.error ≡ none → (d.posted < d'.posted) × IsReset d'.sender

judge-IsSound : (r : Result ℕ) (at : ℕ) (s : Sender) → IsSound s → IsSound (judge r at s).1
unfolding judge
judge-IsSound (err e) at s i = call-IsSound (failed at) s i
judge-IsSound (ok status) at s i =
    let success = call-IsSound succeeded s i in
    let failure = call-IsSound (failed at) s i in ground arith

judge-done : (r : Result ℕ) (at : ℕ) (s s' : Sender) → judge r at s ≡ (return none, s') → IsReset s'
unfolding judge record_success
judge-done r at s s' h = ground arith

turn-Ends :
    (attempt : ℕ) (t : Try) (d : Delivery)
    → (turn attempt t d).0 ≡ none
    → Ends 1 d (turn attempt t d).1
unfolding turn
turn-Ends attempt t d h =
    let sound = judge-IsSound t.response t.at d.sender in
    let done = judge-done t.response t.at d.sender in
    record {
      few = ground arith;
      sound = λ i. ground (arith, sound i);
      done = λ e. ground (arith, done (turn attempt t d).1.sender);
    }

turn-retry :
    (attempt : ℕ) (t : Try) (d : Delivery) (e : SendError)
    → (turn attempt t d).0 ≡ some e
    → ((turn attempt t d).1.posted ≡ suc d.posted)
      × (IsSound d.sender → IsSound (turn attempt t d).1.sender)
unfolding turn
turn-retry attempt t d e h =
    let sound = judge-IsSound t.response t.at d.sender in
    (ground arith, λ i. ground (arith, sound i))

deliver-Ends :
    (tries : ℕ → Try) (left attempt : ℕ) (last_err : SendError) (d : Delivery)
    → Ends left d (deliver tries left attempt last_err d)
unfolding deliver
deliver-Ends tries zero attempt last_err d = record {
  few = ground arith;
  sound = λ i. i;
  done = λ e. cc;
}
deliver-Ends tries (suc left) attempt last_err d =
    let d' = (turn attempt (tries attempt) d).1 in
    elim (Option-cases (turn attempt (tries attempt) d).0) [
      | inl h ↦
          let ends = turn-Ends attempt (tries attempt) d h in
          let few = ends.few in
          rw (h, deliver) (record { few = omega arith; sound = ends.sound; done = ends.done })
      | inr (e, h) ↦
          let (posted, sound) = turn-retry attempt (tries attempt) d e h in
          let ends = deliver-Ends tries left (suc attempt) e d' in
          let few = ends.few in
          rw (h, deliver)
            (record {
              few = omega arith;
              sound = λ i. ends.sound (sound i);
              done = λ z. let (more, reset) = ends.done z in (omega arith, reset);
            })
    ]

-- At most three requests, a sound sender, and without an error either no webhook is configured or a
-- request was posted and the breaker reset.
pub record Sends (url : String) (d : Delivery) : Type 0 where
  pub few : d.posted ≤ 3
  pub sound : IsSound d.sender
  pub done :
      (is_some d.error ≡ true)
      ⊎ (str_eq url "" ≡ true)
      ⊎ ((d.error ≡ none) × (0 < d.posted) × IsReset d.sender)

abbrev delivered : (ℕ → Try) → Delivery → Delivery
delivered tries d = deliver tries 3 0 no_error d

deliver_facts :
    (tries : ℕ → Try) (d : Delivery)
    → ((delivered tries d).posted ≤ d.posted + 3)
      × (IsSound d.sender → IsSound (delivered tries d).sender)
      × ((delivered tries d).error ≡ none
          → (d.posted < (delivered tries d).posted) × IsReset (delivered tries d).sender)
deliver_facts tries d = let e = deliver-Ends tries 3 0 no_error d in (e.few, e.sound, e.done)

-- Whatever the encoder, the context, the client and the clock do, Send on a sound sender posts at
-- most three requests and leaves it sound; and it returns an error, or the URL is empty, or a request
-- was posted and the breaker is closed with no failure counted.
pub send-Sends :
    (marshalled : Failure) (now : ℕ) (tries : ℕ → Try) (url : String) (s : Sender)
    → IsSound s
    → Sends url (send marshalled now tries url s)
unfolding send
send-Sends marshalled now tries url s i =
    let d = quiet (is_circuit_open now s).1 none in
    let (few, sound, done) = deliver_facts tries d in
    let asked = call-IsSound (ask now) s in
    record { few = ground arith; sound = ground (arith, asked i); done = ground arith }

is_circuit_open-true :
    (now : ℕ) (s : Sender)
    → s.circuit_open ≡ true
    → now - s.last_failure < s.reset_timeout
    → is_circuit_open now s ≡ (true, s)
unfolding is_circuit_open
is_circuit_open-true now s o h = ground arith

-- While the breaker is open and its timeout has not passed, Send to a URL that is not empty posts
-- nothing, sleeps nowhere, fails with the breaker's error and leaves the sender as it is.
send_refused :
    (marshalled : Failure) (now : ℕ) (tries : ℕ → Try) (url : String) (s : Sender)
    → str_eq url "" ≡ false
    → s.circuit_open ≡ true
    → now - s.last_failure < s.reset_timeout
    → send marshalled now tries url s ≡ quiet s (some breaker_open)
unfolding send
send_refused marshalled now tries url s u o h = rw (u, is_circuit_open-true now s o h) refl
