-- ===== src/Speaker/Delivery.antt =====
-- Events and the channels of their subscribers: what holds when the operations run one behind the
-- other.
use meeting_baa_s.Base.{
  ◌≡◌, refl, ◌≤◌, ◌<◌, ℕ, Bool, true, false, ◌||◌, ◌==◌, List, [], ◌∷◌, ◌++◌, any, arith, length,
  length-append, str_eq, inl, inr, Bool-cases, ◌∙◌,
}
use meeting_baa_s.Speaker.{
  SpeakerEvent, Hub, new_hub, new_manager, set_channel, send, send_all, push, push_locked,
  subscribe, unlist, cancel, cancel_locked, close_channel, Operation, pushed, subscribed, cancelled,
  operate, operate_all,
}

abbrev pub is_listed : ℕ → List ℕ → Bool
is_listed ch = any (λ c. c == ch)

-- Every listed channel is open and listed once, no buffer holds more than its capacity, and nothing
-- has panicked.
pub record IsLive (h : Hub) : Type 0 where
  pub listed_open :
      (ch : ℕ) → is_listed ch h.manager.subscribers ≡ true → (h.channels ch).closed ≡ false
  pub listed_below : (ch : ℕ) → is_listed ch h.manager.subscribers ≡ true → ch < h.next
  pub listed_once : (ch : ℕ) → is_listed ch (unlist ch h.manager.subscribers) ≡ false
  pub fits : (ch : ℕ) → length (h.channels ch).buffer ≤ (h.channels ch).capacity
  pub calm : h.panicked ≡ false

new_hub-IsLive : IsLive new_hub
unfolding new_hub new_manager unlist
new_hub-IsLive = record {
  listed_open = λ ch e. cc;
  listed_below = λ ch e. cc;
  listed_once = λ ch. refl;
  fits = λ ch. omega arith;
  calm = refl;
}

-- A send to an open channel changes buffers only.
record SendsTo (ev : SpeakerEvent) (ch : ℕ) (h : Hub) : Type 0 where
  manager : (send ev ch h).manager ≡ h.manager
  next : (send ev ch h).next ≡ h.next
  panicked : (send ev ch h).panicked ≡ h.panicked
  closed : (n : ℕ) → ((send ev ch h).channels n).closed ≡ (h.channels n).closed
  fits :
      (n : ℕ)
      → length (h.channels n).buffer ≤ (h.channels n).capacity
      → length ((send ev ch h).channels n).buffer ≤ ((send ev ch h).channels n).capacity

send-SendsTo :
    (ev : SpeakerEvent) (ch : ℕ) (h : Hub) → (h.channels ch).closed ≡ false → SendsTo ev ch h
unfolding send set_channel
send-SendsTo ev ch h e = record {
  manager = ground arith;
  next = ground arith;
  panicked = ground arith;
  closed = λ n. ground arith;
  fits = λ n f. ground (arith, length-append (h.channels ch).buffer (ev ∷ []));
}

send-IsLive :
    (ev : SpeakerEvent) (ch : ℕ) (h : Hub)
    → (h.channels ch).closed ≡ false
    → IsLive h
    → IsLive (send ev ch h)
send-IsLive ev ch h e i =
    let s = send-SendsTo ev ch h e in
    let same = s.manager in
    let next = s.next in
    let panicked = s.panicked in
    record {
      listed_open = λ n l. s.closed n ∙ i.listed_open n (rw same at l);
      listed_below = λ n l. rw next (i.listed_below n (rw same at l));
      listed_once = λ n. rw same (i.listed_once n);
      fits = λ n. s.fits n (i.fits n);
      calm = panicked ∙ i.calm;
    }

==_refl : (n : ℕ) → (n == n) ≡ true
==_refl n = ground arith

send_all-IsLive :
    (ev : SpeakerEvent) (chs : List ℕ) (h : Hub)
    → ((ch : ℕ) → is_listed ch chs ≡ true → (h.channels ch).closed ≡ false)
    → IsLive h
    → IsLive (send_all ev chs h)
unfolding send_all
send_all-IsLive ev [] h o i = i
send_all-IsLive ev (ch ∷ chs) h o i =
    let e = o ch (ground (arith, ==_refl ch)) in
    send_all-IsLive ev chs (send ev ch h)
      (λ n l. (send-SendsTo ev ch h e).closed n ∙ o n (ground arith)) (send-IsLive ev ch h e i)

push-IsLive : (ev : SpeakerEvent) (h : Hub) → IsLive h → IsLive (push ev h)
unfolding push push_locked
push-IsLive ev h i = elim (Bool-cases (str_eq ev.name "")) [
  | inl e ↦ rw (e, push) i
  | inr e ↦
      rw (e, push)
        (send_all-IsLive ev h.manager.subscribers
          (record h { manager = (push_locked ev h.manager).0 }) i.listed_open
          (record {
            listed_open = i.listed_open;
            listed_below = i.listed_below;
            listed_once = i.listed_once;
            fits = i.fits;
            calm = i.calm;
          }))
]

is_listed-append :
    (ch c : ℕ) (cs : List ℕ) → is_listed ch (cs ++ (c ∷ [])) ≡ (is_listed ch cs || (c == ch))
is_listed-append ch c [] = ground arith
is_listed-append ch c (x ∷ cs) = ground (arith, is_listed-append ch c cs)

unlist-append :
    (ch c : ℕ) (cs : List ℕ)
    → is_listed c cs ≡ false
    → is_listed ch (unlist ch cs) ≡ false
    → is_listed ch (unlist ch (cs ++ (c ∷ []))) ≡ false
unfolding unlist
unlist-append ch c [] n h = ground arith
unlist-append ch c (x ∷ cs) n h = ground (arith, unlist-append ch c cs, is_listed-append ch c cs)

subscribe-IsLive : (buf : ℕ) (h : Hub) → IsLive h → IsLive (subscribe buf h).1
unfolding subscribe set_channel
subscribe-IsLive buf h i = record {
  listed_open =
      λ ch l. ground (arith, i.listed_open ch, is_listed-append ch h.next h.manager.subscribers);
  listed_below =
      λ ch l. ground (arith, i.listed_below ch, is_listed-append ch h.next h.manager.subscribers);
  listed_once = λ ch.
      unlist-append ch h.next h.manager.subscribers (ground (arith, i.listed_below h.next))
        (i.listed_once ch);
  fits = λ ch. ground (arith, i.fits ch);
  calm = i.calm;
}

unlist_listed : (n ch : ℕ) (cs : List ℕ) → is_listed n (unlist ch cs) ≡ true → is_listed n cs ≡ true
unfolding unlist
unlist_listed n ch [] l = l
unlist_listed n ch (c ∷ cs) l = ground (arith, unlist_listed n ch cs)

unlist_comm : (n ch : ℕ) (cs : List ℕ) → unlist n (unlist ch cs) ≡ unlist ch (unlist n cs)
unfolding unlist
unlist_comm n ch [] = refl
unlist_comm n ch (c ∷ cs) = ground (arith, unlist_comm n ch cs)

unlist_once :
    (n ch : ℕ) (cs : List ℕ)
    → is_listed n (unlist n cs) ≡ false
    → is_listed n (unlist n (unlist ch cs)) ≡ false
unlist_once n ch cs h = ground (arith, unlist_comm n ch cs, unlist_listed n ch (unlist n cs))

cancel-IsLive :
    (ch : ℕ) (h : Hub) → is_listed ch h.manager.subscribers ≡ true → IsLive h → IsLive (cancel ch h)
unfolding cancel cancel_locked close_channel set_channel
cancel-IsLive ch h l i =
    let opened = i.listed_open ch l in
    let once = i.listed_once ch in
    let calm = i.calm in
    record {
      listed_open =
          λ n e. ground (arith, i.listed_open n, unlist_listed n ch h.manager.subscribers);
      listed_below =
          λ n e. ground (arith, i.listed_below n, unlist_listed n ch h.manager.subscribers);
      listed_once = λ n. ground (arith, unlist_once n ch h.manager.subscribers (i.listed_once n));
      fits = λ n. ground (arith, i.fits n);
      calm = ground arith;
    }

-- A cancel function is called while its channel is listed, so not twice.
abbrev pub IsAllowed : Operation → Hub → Type 0
IsAllowed (pushed ev) h = Unit
IsAllowed (subscribed buf) h = Unit
IsAllowed (cancelled ch) h = is_listed ch h.manager.subscribers ≡ true

abbrev pub AreAllowed : List Operation → Hub → Type 0
AreAllowed [] h = Unit
AreAllowed (op ∷ ops) h = IsAllowed op h × AreAllowed ops (operate op h)

operate-IsLive : (op : Operation) (h : Hub) → IsAllowed op h → IsLive h → IsLive (operate op h)
unfolding operate
operate-IsLive (pushed ev) h a i = push-IsLive ev h i
operate-IsLive (subscribed buf) h a i = subscribe-IsLive buf h i
operate-IsLive (cancelled ch) h a i = cancel-IsLive ch h a i

operate_all-steps :
    (ops : List Operation) (h : Hub) → AreAllowed ops h → IsLive h → IsLive (operate_all ops h)
unfolding operate_all
operate_all-steps [] h a i = i
operate_all-steps (op ∷ ops) h a i =
    operate_all-steps ops (operate op h) a.1 (operate-IsLive op h a.0 i)

-- On a new manager, after any pushes, subscriptions and cancels that run one behind the other, no
-- channel cancelled twice: no goroutine has panicked, every listed channel is open and listed once,
-- and no buffer holds more than its capacity.
pub operate_all-IsLive :
    (ops : List Operation) → AreAllowed ops new_hub → IsLive (operate_all ops new_hub)
operate_all-IsLive ops a = operate_all-steps ops new_hub a new_hub-IsLive
