-- ===== src/Speaker/Races.antt =====
-- A cancel that runs between the two parts of Push.
use meeting_baa_s.Base.{◌≡◌, ℕ, true, List, [], ◌∷◌, arith, ◌==◌, inl, inr, Bool-cases, ◌∙◌, ap}
use meeting_baa_s.Speaker.{
  SpeakerEvent, Hub, set_channel, send, send_all, push_locked, cancel, cancel_locked, close_channel,
}
use meeting_baa_s.Speaker.Delivery.{is_listed}

-- A panic stays, and so does a closed channel.
record Decays (before after : Hub) : Type 0 where
  panicked : before.panicked ≡ true → after.panicked ≡ true
  closed : (n : ℕ) → (before.channels n).closed ≡ true → (after.channels n).closed ≡ true

send-Decays : (ev : SpeakerEvent) (ch : ℕ) (h : Hub) → Decays h (send ev ch h)
unfolding send set_channel
send-Decays ev ch h = record { panicked = λ e. ground arith; closed = λ n e. ground arith }

send_all-panicked :
    (ev : SpeakerEvent) (chs : List ℕ) (h : Hub)
    → h.panicked ≡ true
    → (send_all ev chs h).panicked ≡ true
unfolding send_all
send_all-panicked ev [] h e = e
send_all-panicked ev (ch ∷ chs) h e =
    send_all-panicked ev chs (send ev ch h) ((send-Decays ev ch h).panicked e)

send-panicked :
    (ev : SpeakerEvent) (ch : ℕ) (h : Hub)
    → (h.channels ch).closed ≡ true
    → (send ev ch h).panicked ≡ true
unfolding send
send-panicked ev ch h e = ground arith

send_all_to_closed :
    (ev : SpeakerEvent) (ch : ℕ) (chs : List ℕ) (h : Hub)
    → is_listed ch chs ≡ true
    → (h.channels ch).closed ≡ true
    → (send_all ev chs h).panicked ≡ true
unfolding send_all
send_all_to_closed ev ch [] h l e = cc
send_all_to_closed ev ch (c ∷ chs) h l e = elim (Bool-cases (c == ch)) [
  | inl same ↦ send_all-panicked ev chs (send ev c h) (
      send-panicked ev c h
        (let place : c ≡ ch = ground arith in ap (λ n. (h.channels n).closed) place ∙ e))
  | inr other ↦
      send_all_to_closed ev ch chs (send ev c h) (ground arith) ((send-Decays ev c h).closed ch e)
]

-- Where a listed channel is cancelled between the copy that Push makes of the subscribers and its
-- sends, Push panics: it sends to a closed channel.
pub cancel_within_push :
    (ev : SpeakerEvent) (ch : ℕ) (h : Hub)
    → is_listed ch h.manager.subscribers ≡ true
    → (send_all ev
        (push_locked ev h.manager).1
        (cancel ch (record h { manager = (push_locked ev h.manager).0 }))).panicked
      ≡ true
unfolding push_locked cancel cancel_locked close_channel set_channel
cancel_within_push ev ch h l = elim (Bool-cases (h.channels ch).closed) [
  | inl e ↦ send_all-panicked ev h.manager.subscribers _ (ground arith)
  | inr e ↦ send_all_to_closed ev ch h.manager.subscribers _ l (ground arith)
]
