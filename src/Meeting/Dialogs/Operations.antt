-- ===== src/Meeting/Dialogs/Operations.antt =====
-- The operations of the observer, and the tick of a loop.
use meeting_baa_s.Base.{
  ℕ, suc, String, Bool, true, false, not, ◌||◌, ◌==◌, Option, none, some, List, [], ◌∷◌, ◌++◌,
  is_some, if◌then◌else◌,
}
use meeting_baa_s.Meeting.Dialogs.{Handler, Screen, Event, Act, dismiss_once}

-- A page and a loop's context are known by their numbers.
pub record Observer : Type 0 where
  pub handlers : List Handler
  pub paused : Bool
  pub page : Option ℕ
  pub cancel : Option ℕ

-- The observer, the contexts that are not done, and the number of the next one.
pub record Watch : Type 0 where
  pub observer : Observer
  pub live : List ℕ
  pub next : ℕ

unfoldable pub new_watch : Watch
new_watch = record {
  observer = record { handlers = []; paused = false; page = none; cancel = none };
  live = [];
  next = 0;
}

-- A context that is cancelled is done for good.
unfoldable pub end_loop : ℕ → List ℕ → List ℕ
end_loop n [] = []
end_loop n (l ∷ ls) = let rest = end_loop n ls in if l == n then rest else l ∷ rest

abbrev pub end_current : Option ℕ → List ℕ → List ℕ
end_current none live = live
end_current (some n) live = end_loop n live

-- The operations, and `expire`, the end of the context that Attach was given; nil is none.
pub data Operation : Type 0 where
  subscribe : Option Handler → Operation
  pause : Operation
  resume : Operation
  attach : Option ℕ → Operation
  stop : Operation
  expire : ℕ → Operation

unfoldable pub operate : Operation → Watch → Watch
operate (subscribe none) w = w
operate (subscribe (some h)) w = record w {
  observer = record w.observer { handlers = w.observer.handlers ++ (h ∷ []) };
}
operate pause w = record w { observer = record w.observer { paused = true } }
operate resume w = record w { observer = record w.observer { paused = false } }
operate (attach none) w = w
operate (attach (some page)) w = record w {
  observer = record w.observer { page = some page; cancel = some w.next };
  live = w.next ∷ end_current w.observer.cancel w.live;
  next = suc w.next;
}
operate stop w = record w {
  observer = record w.observer { cancel = none };
  live = end_current w.observer.cancel w.live;
}
operate (expire n) w = record w { live = end_loop n w.live }

unfoldable pub operate_all : List Operation → Watch → Watch
operate_all [] w = w
operate_all (op ∷ ops) w = operate_all ops (operate op w)

-- A tick of one loop: a paused observer, or one without a page, does nothing.
unfoldable pub tick : (loop : ℕ) → Watch → Screen → String × List Event × List Act
tick loop w screen =
    if w.observer.paused || not (is_some w.observer.page)
    then ("", [], [])
    else dismiss_once w.observer.handlers screen
