-- ===== src/Speaker/Names.antt =====
-- What the snapshot tells of a history of events: a refinement of the map from a name to its last event.
use text.Mathlib.TextEquality.{eq_iff}
use meeting_baa_s.Base.{
  ◌≡◌, refl, ◌∙◌, inl, inr, String, Bool, false, not, ◌&&◌, ◌||◌, List, [], ◌∷◌, any, arith, str_eq,
  str_eq-eq, Bool-cases, if◌then◌else◌, ℕ,
}
use meeting_baa_s.Speaker.{
  SpeakerEvent, Manager, new_manager, has_name, put_name, drop_name, push_locked, snapshot_names,
  Hub, send, send_all, push,
}

has_name-put_name :
    (name n : String) (names : List String)
    → has_name name (put_name n names) ≡ (str_eq name n || has_name name names)
unfolding put_name
has_name-put_name name n names = elim (Bool-cases (has_name n names)) [
  | inr e ↦ rw e refl
  | inl e ↦ elim (Bool-cases (str_eq name n)) [
    | inl same ↦ rw (e, same) (rw (str_eq-eq same) e)
    | inr other ↦ rw (e, other) refl
  ]
]

has_name-drop_name :
    (name n : String) (names : List String)
    → has_name name (drop_name n names) ≡ (not (str_eq name n) && has_name name names)
unfolding drop_name
has_name-drop_name name n [] = ground arith
has_name-drop_name name n (x ∷ names) = elim (Bool-cases (str_eq n x)) [
  | inl same ↦
      ground (arith, eq_iff name n, eq_iff n x, eq_iff name x, has_name-drop_name name n names)
  | inr other ↦
      ground (arith, eq_iff name n, eq_iff n x, eq_iff name x, has_name-drop_name name n names)
]

send-manager : (ev : SpeakerEvent) (ch : ℕ) (h : Hub) → (send ev ch h).manager ≡ h.manager
unfolding send
send-manager ev ch h = ground arith

send_all-manager :
    (ev : SpeakerEvent) (chs : List ℕ) (h : Hub) → (send_all ev chs h).manager ≡ h.manager
unfolding send_all
send_all-manager ev [] h = refl
send_all-manager ev (ch ∷ chs) h = send_all-manager ev chs (send ev ch h) ∙ send-manager ev ch h

-- The events stand latest first.
unfoldable pub pushes : List SpeakerEvent → Hub → Hub
pushes [] h = h
pushes (ev ∷ evs) h = push ev (pushes evs h)

-- What the last event with a name says of it.
abbrev pub is_speaking : String → List SpeakerEvent → Bool
is_speaking name [] = false
is_speaking name (ev ∷ evs) = if str_eq name ev.name then ev.active else is_speaking name evs

abbrev pub was_seen : String → List SpeakerEvent → Bool
was_seen name = any (λ (ev : SpeakerEvent). str_eq name ev.name)

manager-push :
    (ev : SpeakerEvent) (h : Hub)
    → (push ev h).manager ≡ (if str_eq ev.name "" then h.manager else (push_locked ev h.manager).0)
unfolding push
manager-push ev h = elim (Bool-cases (str_eq ev.name "")) [
  | inl e ↦ rw e refl
  | inr e ↦ rw e (send_all-manager ev (push_locked ev h.manager).1 _)
]

pushed_once :
    (name : String) (ev : SpeakerEvent) (m : Manager) (a b : Bool)
    → str_eq name "" ≡ false
    → has_name name m.active_names ≡ a
    → has_name name m.all_names ≡ b
    → let m' = (if str_eq ev.name "" then m else (push_locked ev m).0) in
      (has_name name m'.active_names ≡ (if str_eq name ev.name then ev.active else a))
      × (has_name name m'.all_names ≡ (str_eq name ev.name || b))
unfolding push_locked
pushed_once name ev m a b n h k = ground (
  arith,
  eq_iff name ev.name,
  eq_iff ev.name "",
  eq_iff name "",
  has_name-put_name name ev.name m.active_names,
  has_name-put_name name ev.name m.all_names,
  has_name-drop_name name ev.name m.active_names,
)

-- The snapshot of a manager is that of the events pushed to it: a name is active exactly when the
-- last event with that name was, and known exactly when there was one. An empty name is no name.
pub pushes-snapshot_names :
    (name : String) (evs : List SpeakerEvent) (h : Hub)
    → h.manager ≡ new_manager
    → str_eq name "" ≡ false
    → let (active, all) = snapshot_names (pushes evs h).manager in
      (has_name name active ≡ is_speaking name evs) × (has_name name all ≡ was_seen name evs)
unfolding pushes snapshot_names
pushes-snapshot_names name [] h e n = rw e (unfold new_manager in (refl, refl))
pushes-snapshot_names name (ev ∷ evs) h e n =
    let m = (pushes evs h).manager in
    let ih = pushes-snapshot_names name evs h e n in
    rw (manager-push ev (pushes evs h)) (pushed_once name ev m _ _ n ih.0 ih.1)
