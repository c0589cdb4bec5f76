-- ===== src/Bot/Machine/Ending.antt =====
-- How a session ends: what Cleanup leaves behind, and what cancelling the context skips.
use meeting_baa_s.Bot.Machine.Cancelling.{execute-QuietBefore}
use meeting_baa_s.Bot.States.Setup.Quiet.{is_closing, IsQuiet}
use meeting_baa_s.Base.{◌≡◌, ◌≢◌, Bool, true, false, some, List, arith, All, any, [], ◌∷◌, refl}
use meeting_baa_s.Bot.Types.{StateType, cleanup, terminated}
use meeting_baa_s.Bot.Context.{BotConfig, new_context}
use meeting_baa_s.Bot.Requests.{serve}
use meeting_baa_s.Bot.Requests.Rules.{serve-SameSession}
use meeting_baa_s.Bot.World.{
  Script, World, Dependencies, Effect, recorder_stop, upload, send_complete, close_browser,
  new_world,
}
use meeting_baa_s.Bot.States.{build_state_map}
use meeting_baa_s.Bot.States.Closing.{execute_cleanup}
use meeting_baa_s.Bot.Machine.{Machine, Round, finished, new_machine, run}
use meeting_baa_s.Bot.Machine.Steps.{execute, run_ends, run_keeps, some_pair}
use meeting_baa_s.Bot.Machine.Launched.{is_launched, IsTracked, execute-IsTracked}
use meeting_baa_s.Bot.Machine.Edges.{may_follow, execute-may_follow}

abbrev pub is_recorder_stop : Effect → Bool
is_recorder_stop recorder_stop = true
is_recorder_stop _ = false

abbrev pub is_upload : Effect → Bool
is_upload upload = true
is_upload _ = false

abbrev pub is_send_complete : Effect → Bool
is_send_complete (send_complete reason) = true
is_send_complete _ = false

abbrev pub is_close_browser : Effect → Bool
is_close_browser close_browser = true
is_close_browser _ = false

-- Each closing call was made exactly where its collaborator is wired, or a launch gave a browser.
pub record IsClosed (deps : Dependencies) (w : World) : Type 0 where
  pub recorder : any is_recorder_stop w.log ≡ deps.recorder
  pub uploader : any is_upload w.log ≡ deps.uploader
  pub webhooker : any is_send_complete w.log ≡ deps.webhooker
  pub browser : any is_close_browser w.log ≡ any is_launched w.log

any-weaker :
    (p q : Effect → Bool)
    → ((e : Effect) → q e ≡ false → p e ≡ false)
    → (es : List Effect) → any q es ≡ false
    → any p es ≡ false
any-weaker p q f [] h = refl
any-weaker p q f (e ∷ es) h = ground (arith, f e, any-weaker p q f es)

weaker_stop : (e : Effect) → is_closing e ≡ false → is_recorder_stop e ≡ false
weaker_stop e h = ground arith

weaker_upload : (e : Effect) → is_closing e ≡ false → is_upload e ≡ false
weaker_upload e h = ground arith

weaker_complete : (e : Effect) → is_closing e ≡ false → is_send_complete e ≡ false
weaker_complete e h = ground arith

weaker_close : (e : Effect) → is_closing e ≡ false → is_close_browser e ≡ false
weaker_close e h = ground arith

cleanup-IsClosed :
    (deps : Dependencies) (s : Script) (w : World)
    → IsQuiet w
    → IsTracked w
    → IsClosed deps (execute_cleanup deps s w).1
unfolding execute_cleanup
cleanup-IsClosed deps s w q k =
    let stops = any-weaker is_recorder_stop is_closing (λ e. weaker_stop e) w.log q in
    let uploads = any-weaker is_upload is_closing (λ e. weaker_upload e) w.log q in
    let completes = any-weaker is_send_complete is_closing (λ e. weaker_complete e) w.log q in
    let closes = any-weaker is_close_browser is_closing (λ e. weaker_close e) w.log q in
    record {
      recorder = ground (arith, stops);
      uploader = ground (arith, uploads);
      webhooker = ground (arith, completes);
      browser = ground (
        arith,
        closes,
        k,
        serve-SameSession cleanup s.before w.mc,
        serve-SameSession cleanup s.during (serve cleanup s.before w.mc),
      );
    }

-- Nothing is closed before the last state, and then everything.
abbrev ClosedAtEnd : Dependencies → StateType → World → Type 0
ClosedAtEnd deps c w =
    (c ≢ terminated → IsQuiet w × IsTracked w) × (c ≡ terminated → IsClosed deps w)

before_terminated : (c : StateType) → may_follow c terminated ≡ true → c ≡ cleanup
before_terminated c h = ground arith

execute-ClosedAtEnd :
    (deps : Dependencies) (c : StateType) (s : Script) (w : World) (next : StateType) (w' : World)
    → c ≢ terminated
    → execute deps c s w ≡ some (next, w')
    → IsQuiet w × IsTracked w
    → ClosedAtEnd deps next w'
execute-ClosedAtEnd deps c s w next w' t h (q, k) = (
  λ n. (execute-QuietBefore deps c s w next w' h q n, execute-IsTracked deps c s w next w' h k),
  λ e.
      let is_cleanup = before_terminated c (rw e at (execute-may_follow deps c s w next w' t h)) in
      some_pair (λ n. IsClosed deps) (execute_cleanup deps s w) next w' (rw is_cleanup at h)
        (cleanup-IsClosed deps s w q k),
)

-- A run that ends without a cancelled context has been through Cleanup, whatever failed before: the
-- recorder was told to stop exactly where there is one, the upload and the completion webhook were
-- tried exactly where they are wired, and the browser was closed exactly where a launch of one
-- returned without an error, whether or not its page then opened.
pub run-IsClosed :
    (deps : Dependencies) (cfg : BotConfig) (rounds : List Round) (m : Machine)
    → All (λ r. r.cancelled ≡ false) rounds
    → run (build_state_map deps) rounds (new_machine (new_world cfg)) ≡ finished m
    → IsClosed deps m.world
unfolding new_machine new_context
run-IsClosed deps cfg rounds m live e =
    let closed =
      run_keeps deps (λ r. r.cancelled ≡ false) (ClosedAtEnd deps)
        (λ c r w next w' g t h p. execute-ClosedAtEnd deps c r.script w next w' t h (p.0 t))
        (λ c r w g z p. cc (g, z)) rounds (new_machine (new_world cfg)) m live e
        ((λ x. (refl, refl)), λ x. cc) in
    closed.1 (run_ends deps rounds (new_machine (new_world cfg)) m e)
