-- ===== src/Meeting/Meet/Admission.antt =====
-- Whom Meet admits: the detector composed with the join loop and the waiting room.
use mathlib.Core.Path.{subst}
use meeting_baa_s.Base.{
  ◌≡◌, refl, ◌⊎◌, inl, inr, String, Bool, true, false, some, List, [], ◌∷◌, ok, Failure, All,
  is_some, some_inj, Option-cases, Bool-cases, ◌∙◌, ◌&&◌,
}
use meeting_baa_s.Meeting.Detector.{detect, detect_rules, detect_rule}
use meeting_baa_s.Meeting.Meet.{
  Dom, Act, Joined, JoinOptions, Round, Lobby, decide, await_admission, join_meeting,
  click_join_button, meet_state_config, sel_removed_from_call_text, detected_state,
}

-- The page answers whether it shows that the bot was removed.
abbrev pub Answers : Dom → Type 0
Answers dom = (b : Bool) × (dom.is_visible sel_removed_from_call_text ≡ ok b)

detect-Answers :
    (dom : Dom) (cancelled : Failure)
    → Answers dom
    → ((detect (some dom.is_visible) cancelled meet_state_config).0 ≡ "removed")
      ⊎ ((detect (some dom.is_visible) cancelled meet_state_config).0 ≡ "")
unfolding detect detect_rules detect_rule meet_state_config
detect-Answers dom cancelled (true, e) = inl (rw e refl)
detect-Answers dom cancelled (false, e) = inr (rw e refl)

abbrev pub IsRefused : Joined → Type 0
IsRefused j = (is_some j.error ≡ true) × (j.success ≡ false)

decide-IsRefused :
    (opts : JoinOptions) (state : String) (acts : List Act) (j : Joined)
    → (state ≡ "removed") ⊎ (state ≡ "")
    → decide opts state acts ≡ some j
    → IsRefused j
unfolding decide
decide-IsRefused opts state acts j (inl e) h =
    let h' = rw e at h in subst IsRefused (some_inj h') (refl, refl)
decide-IsRefused opts state acts j (inr e) h = let h' = rw e at h in cc h'

await-IsRefused :
    (opts : JoinOptions) (rounds : List Round) (acts : List Act) (j : Joined)
    → All (λ r. Answers r.dom) rounds
    → await_admission opts rounds acts ≡ some j
    → IsRefused j
unfolding await_admission
await-IsRefused opts [] acts j a h = cc
await-IsRefused opts (r ∷ rs) acts j (a, others) h = elim (Option-cases r.context) [
  | inr (e, c) ↦ subst IsRefused (some_inj (rw (c, await_admission) at h)) (refl, refl)
  | inl c ↦ elim (Bool-cases (opts.cancel_check && r.cancelled)) [
    | inl x ↦ subst IsRefused (some_inj (rw (c, x, await_admission) at h)) (refl, refl)
    | inr x ↦ elim (Option-cases (decide opts (detected_state r) acts)) [
      | inl d ↦
          await-IsRefused opts rs (click_join_button r.dom acts) j others
            (rw (c, x, d, await_admission) at h)
      | inr (k, d) ↦
          decide-IsRefused opts (detected_state r) acts j
            (detect-Answers r.dom r.detected_context a) (d ∙ (rw (c, x, d, await_admission) at h))
    ]
  ]
]

-- While the page answers, shown or not, whether the bot was removed, JoinMeeting never admits it: it
-- never calls OnJoinSuccess, and whatever it returns is an error, also with the call's own button in
-- view.
pub join_meeting-IsRefused :
    (opts : JoinOptions) (lobby : Lobby) (j : Joined)
    → All (λ r. Answers r.dom) lobby.rounds
    → join_meeting opts (some lobby) ≡ some j
    → IsRefused j
unfolding join_meeting
join_meeting-IsRefused opts l j a h = elim (Bool-cases (opts.cancel_check && l.cancelled)) [
  | inl x ↦ subst IsRefused (some_inj (rw (x, join_meeting) at h)) (refl, refl)
  | inr x ↦ await-IsRefused opts l.rounds _ j a (rw (x, join_meeting) at h)
]
