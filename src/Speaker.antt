-- ===== src/Speaker.antt =====
-- The speaker manager: internal/infra/speaker/manager.go with the event of types.go. A map of names is
-- the list of its keys, in the order that its iteration gives. A channel is known by its number.
pub mod Delivery
pub mod Names
pub mod Races
use meeting_baa_s.Base.{
  ℕ, suc, ◌+◌, String, Bool, true, false, not, ◌&&◌, Option, none, some, List, [], ◌∷◌, ◌++◌, any,
  ltb, ◌==◌, str_eq, length, is_positive, if◌then◌else◌,
}

pub record SpeakerEvent : Type 0 where
  pub name : String
  pub active : Bool

pub record Manager : Type 0 where
  -- the numbers of the channels, in the order of their subscription
  pub subscribers : List ℕ
  pub active_names : List String
  pub all_names : List String

unfoldable pub new_manager : Manager
new_manager = record { subscribers = []; active_names = []; all_names = [] }

abbrev pub has_name : String → List String → Bool
has_name name = any (str_eq name)

-- `m[name] = struct{}{}` and `delete(m, name)`.
unfoldable pub put_name : String → List String → List String
put_name name names = if has_name name names then names else name ∷ names

unfoldable pub drop_name : String → List String → List String
drop_name name [] = []
drop_name name (n ∷ names) =
    let rest = drop_name name names in if str_eq name n then rest else n ∷ rest

-- The part of Push under the mutex: the maps, and the copy of the subscribers. An event without a
-- name is dropped before it.
unfoldable pub push_locked : SpeakerEvent → Manager → Manager × List ℕ
push_locked ev m = (
  record m {
    all_names = put_name ev.name m.all_names;
    active_names =
        if ev.active then put_name ev.name m.active_names else drop_name ev.name m.active_names;
  },
  m.subscribers,
)

-- `SnapshotNames`: the active speakers, and everyone.
unfoldable pub snapshot_names : Manager → List String × List String
snapshot_names m = (m.active_names, m.all_names)

pub record Channel : Type 0 where
  pub capacity : ℕ
  pub buffer : List SpeakerEvent
  pub closed : Bool

-- The manager, the channels that were made, and whether a goroutine has panicked.
pub record Hub : Type 0 where
  pub manager : Manager
  pub channels : ℕ → Channel
  pub next : ℕ
  pub panicked : Bool

abbrev pub no_channel : Channel
no_channel = record { capacity = 0; buffer = []; closed = true }

unfoldable pub new_hub : Hub
new_hub = record { manager = new_manager; channels = λ n. no_channel; next = 0; panicked = false }

unfoldable pub set_channel : ℕ → Channel → (ℕ → Channel) → ℕ → Channel
set_channel ch c channels n = if n == ch then c else channels n

-- `select { case ch <- ev: default: }`: a closed channel panics, a full one drops the event.
unfoldable pub send : SpeakerEvent → ℕ → Hub → Hub
send ev ch h =
    let c = h.channels ch in
    if c.closed
    then record h { panicked = true }
    else if ltb (length c.buffer) c.capacity
    then record h {
      channels = set_channel ch (record c { buffer = c.buffer ++ (ev ∷ []) }) h.channels;
    }
    else h

unfoldable pub send_all : SpeakerEvent → List ℕ → Hub → Hub
send_all ev [] h = h
send_all ev (ch ∷ chs) h = send_all ev chs (send ev ch h)

-- Push, with nothing between its two parts.
unfoldable pub push : SpeakerEvent → Hub → Hub
push ev h =
    if str_eq ev.name ""
    then h
    else (let (m, chs) = push_locked ev h.manager in send_all ev chs (record h { manager = m }))

-- `buf` is a 64-bit word. The answer is the channel's number.
unfoldable pub subscribe : (buf : ℕ) → Hub → ℕ × Hub
subscribe buf h = (
  h.next,
  record h {
    manager = record h.manager { subscribers = h.manager.subscribers ++ (h.next ∷ []) };
    channels =
        set_channel h.next
          (record { capacity = if is_positive buf then buf else 64; buffer = []; closed = false })
          h.channels;
    next = suc h.next;
  },
)

-- The first entry that is the channel is taken out.
unfoldable pub unlist : ℕ → List ℕ → List ℕ
unlist ch [] = []
unlist ch (c ∷ cs) = let rest = unlist ch cs in if c == ch then cs else c ∷ rest

-- The cancel function: under the mutex the channel is taken off the list, then it is closed, which
-- panics when it is closed already.
unfoldable pub cancel_locked : ℕ → Hub → Hub
cancel_locked ch h = record h {
  manager = record h.manager { subscribers = unlist ch h.manager.subscribers };
}

unfoldable pub close_channel : ℕ → Hub → Hub
close_channel ch h =
    let c = h.channels ch in
    if c.closed
    then record h { panicked = true }
    else record h { channels = set_channel ch (record c { closed = true }) h.channels }

unfoldable pub cancel : ℕ → Hub → Hub
cancel ch h = close_channel ch (cancel_locked ch h)

-- What the callers of one manager do.
pub data Operation : Type 0 where
  pushed : SpeakerEvent → Operation
  subscribed : ℕ → Operation
  cancelled : ℕ → Operation

unfoldable pub operate : Operation → Hub → Hub
operate (pushed ev) h = push ev h
operate (subscribed buf) h = (subscribe buf h).1
operate (cancelled ch) h = cancel ch h

unfoldable pub operate_all : List Operation → Hub → Hub
operate_all [] h = h
operate_all (op ∷ ops) h = operate_all ops (operate op h)
