-- ===== src/Bot/Polling.antt =====
-- The `for` loops of internal/usecase/bot/states/recording.go and paused.go: a body that returns or
-- goes round again, over the rounds that the script holds.
pub mod Rules
use meeting_baa_s.Base.{Option, none, some, List, [], ◌∷◌}
use meeting_baa_s.Bot.Types.{StateType}
use meeting_baa_s.Bot.Context.{MeetingContext}
use meeting_baa_s.Bot.World.{Tick, World, with_mc}

-- What one round comes to: the loop is left for a state, or goes on.
pub data Poll : Type 0 where
  leave : StateType → MeetingContext → Poll
  again : MeetingContext → Poll

-- `none`: the ticks ended and the loop has not.
unfoldable pub poll :
    (Tick → MeetingContext → Poll)
    → List Tick
    → MeetingContext
    → Option (StateType × MeetingContext)
poll body [] mc = none
poll body (t ∷ ts) mc = elim (body t mc) [
  | leave next mc' ↦ some (next, mc')
  | again mc' ↦ poll body ts mc'
]

abbrev pub into_world : World → Option (StateType × MeetingContext) → Option (StateType × World)
into_world w none = none
into_world w (some (next, mc)) = some (next, with_mc mc w)
