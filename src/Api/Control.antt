-- ===== src/Api/Control.antt =====
-- The control plane of a worker: stop_record.go and pause_resume.go of internal/api/http. What the
-- stopper and the pause-resumer answer is an argument, `none` where they are not wired.
use meeting_baa_s.Base.{String, Option, none, some, Result, ok, err, Failure, str_eq, if◌then◌else◌}
use meeting_baa_s.Api.{Response, answer, failure}
use Prim.Native.String

-- The body's reason, where there is a body.
abbrev reason_of : Option (Result String) → Result String
reason_of none = ok ""
reason_of (some body) = body

abbrev stop_answer : Option Failure → Response String
stop_answer none = answer 200 "noop"
stop_answer (some (some e)) = failure 500 "" (String.◌++◌ "stop failed: " e)
stop_answer (some none) = answer 200 "stopping"

-- `stopper` is asked with the reason.
unfoldable pub handle_stop_record :
    (stopper : Option (String → Failure)) → (body : Option (Result String)) → Response String
handle_stop_record stopper body = elim (reason_of body) [
  | err e ↦ failure 400 "" (String.◌++◌ "invalid json: " e)
  | ok given ↦
      let reason : String = if str_eq given "" then "api_request" else given in
      elim stopper [ none ↦ stop_answer none | some stop ↦ stop_answer (some (stop reason)) ]
]

unfoldable pub handle_pause : Option Failure → Response String
handle_pause none = failure 503 "" "pause not available"
handle_pause (some (some e)) = failure 400 "" e
handle_pause (some none) = answer 200 "paused"

unfoldable pub handle_resume : Option Failure → Response String
handle_resume none = failure 503 "" "resume not available"
handle_resume (some (some e)) = failure 400 "" e
handle_resume (some none) = answer 200 "resumed"
