-- ===== src/Webhook.antt =====
-- The delivery of webhooks: internal/infra/webhook/sender.go. The encoder, the HTTP client and the
-- clock are outside: `Try` holds what one round of the loop meets.
pub mod Breaker
pub mod Payloads
pub mod Sending
use meeting_baa_s.Base.{
  ℕ, zero, suc, ◌+◌, ◌-◌, ◌*◌, String, Bool, true, false, ◌&&◌, not, Option, none, some, List, [],
  ◌∷◌, Result, ok, err, Failure, ltb, leb, str_eq, if◌then◌else◌, positive_or, increment, at_least,
}

pub record SenderOptions : Type 0 where
  pub timeout : ℕ
  pub max_retries : ℕ
  pub max_failures : ℕ
  pub reset_timeout : ℕ

-- `Sender`: the clock counts nanoseconds. The HTTP client's timeout is `timeout`.
pub record Sender : Type 0 where
  pub timeout : ℕ
  pub failures : ℕ
  pub last_failure : ℕ
  pub circuit_open : Bool
  pub max_failures : ℕ
  pub reset_timeout : ℕ

unfoldable pub new_sender : SenderOptions → Sender
new_sender opts = record {
  timeout = positive_or 10000000000 opts.timeout;
  failures = 0;
  last_failure = 0;
  circuit_open = false;
  max_failures = positive_or 5 opts.max_failures;
  reset_timeout = positive_or 30000000000 opts.reset_timeout;
}

-- The answer, and the breaker, which is closed again when its timeout has passed.
unfoldable pub is_circuit_open : ℕ → Sender → Bool × Sender
is_circuit_open now s =
    if not s.circuit_open
    then (false, s)
    else if leb s.reset_timeout (now - s.last_failure)
    then (false, record s { circuit_open = false; failures = 0 })
    else (true, s)

unfoldable pub record_failure : ℕ → Sender → Sender
record_failure now s =
    let failures = increment s.failures in
    record s {
      failures = failures;
      last_failure = now;
      circuit_open = if at_least s.max_failures failures then true else s.circuit_open;
    }

unfoldable pub record_success : Sender → Sender
record_success s = record s { failures = 0; circuit_open = false }

-- One round of the loop: the context's error, that of building the request, the answer of
-- `httpClient.Do` (its error, or the status), and the clock when a failure is recorded.
pub record Try : Type 0 where
  pub context : Failure
  pub build : Failure
  pub response : Result ℕ
  pub at : ℕ

-- The errors of Send, by their messages: "webhook: circuit breaker open", "webhook: marshal: e",
-- "webhook: build request: e", "webhook: HTTP n", "webhook: all retries exhausted: e", and the
-- errors of the context and of the client as they are.
pub data SendError : Type 0 where
  breaker_open : SendError
  cancelled marshal build_request transport : (message : String) → SendError
  http_status : (status : ℕ) → SendError
  -- `nil`, which lastErr is before the first round
  no_error : SendError
  exhausted : (last_err : SendError) → SendError

-- What a call of Send did: its error, how many requests it posted, and how long it slept, newest
-- first.
pub record Delivery : Type 0 where
  pub sender : Sender
  pub error : Option SendError
  pub posted : ℕ
  pub slept : List ℕ

-- Whether a round goes round again, with the error that it leaves, or returns.
pub data Verdict : Type 0 where
  retry : (last_err : SendError) → Verdict
  return : Option SendError → Verdict

abbrev pub is_delivered : ℕ → Bool
is_delivered status = leb 200 status && ltb status 300

-- What the response means, and the breaker behind it.
unfoldable pub judge : Result ℕ → ℕ → Sender → Verdict × Sender
judge (err e) at s = (retry (transport e), record_failure at s)
judge (ok status) at s =
    if is_delivered status
    then (return none, record_success s)
    else if leb 500 status
    then (retry (http_status status), record_failure at s)
    else (return (some (http_status status)), s)

-- The round has posted its request.
abbrev conclude : ℕ → Delivery → Verdict × Sender → Option SendError × Delivery
conclude attempt d (return e, s) = (none, record d { sender = s; error = e; posted = suc d.posted })
conclude attempt d (retry e, s) = (
  some e,
  record d { sender = s; posted = suc d.posted; slept = (suc attempt * 1000000000) ∷ d.slept },
)

-- One round, number `attempt` from 0: with an error to go round again with, or none to return.
unfoldable pub turn : ℕ → Try → Delivery → Option SendError × Delivery
turn attempt t d = elim t.context [
  | some e ↦ (none, record d { error = some (cancelled e) })
  | none ↦ elim t.build [
    | some e ↦ (none, record d { error = some (build_request e) })
    | none ↦ conclude attempt d (judge t.response t.at d.sender)
  ]
]

-- `left` of the three rounds are still to come, and `last_err` is what the one before left.
unfoldable pub deliver : (ℕ → Try) → (left attempt : ℕ) → SendError → Delivery → Delivery
deliver tries zero attempt last_err d = record d { error = some (exhausted last_err) }
deliver tries (suc left) attempt last_err d =
    let (next, d') = turn attempt (tries attempt) d in
    elim next [ none ↦ d' | some e ↦ deliver tries left (suc attempt) e d' ]

abbrev pub quiet : Sender → Option SendError → Delivery
quiet s e = record { sender = s; error = e; posted = 0; slept = [] }

-- `marshalled` is the error of `json.Marshal`, and `now` the clock when the breaker is asked.
unfoldable pub send : Failure → ℕ → (ℕ → Try) → (url : String) → Sender → Delivery
send marshalled now tries url s =
    if str_eq url ""
    then quiet s none
    else (let (is_open, s') = is_circuit_open now s in
        if is_open then quiet s' (some breaker_open) else elim marshalled [
          | some e ↦ quiet s' (some (marshal e))
          | none ↦ deliver tries 3 0 no_error (quiet s' none)
        ])
