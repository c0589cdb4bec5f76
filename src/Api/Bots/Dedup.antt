-- ===== src/Api/Bots/Dedup.antt =====
-- Two requests for the only bot of a meeting.
use meeting_baa_s.Base.{◌≡◌, ℕ, String, Bool, false, ok, str_eq}
use meeting_baa_s.Api.{Response, answer, failure}
use meeting_baa_s.Api.Bots.{CreateBotRequest, CreateBotResponse, Library, Deps, Outside, Store}
use meeting_baa_s.Api.Bots.Handler.{Caller, handle_create, persisted}

abbrev status_code : Response CreateBotResponse → ℕ
status_code (answer n r) = n
status_code (failure n c m) = n

abbrev answered_id : Response CreateBotResponse → String
answered_id (answer n r) = r.bot_id
answered_id (failure n c m) = ""

-- The way of a request that is answered 201.
record IsPersisted (lib : Library) (deps : Deps) (out : Outside) (caller : Caller)
    (scheduled : Bool) (req : CreateBotRequest) (st : Store) : Type 0 where
  id : String
  tenant : str_eq caller.tenant_id "" ≡ false
  run :
      handle_create lib deps out caller scheduled (ok req) st
      ≡ persisted lib deps out caller scheduled req id st

abbrev pub found : String → Response CreateBotResponse
found id = answer 200 (record { bot_id = id; stream_id = ""; status = "queued" })
