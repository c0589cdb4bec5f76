-- ===== src/Meeting/Dialogs/Handling.antt =====
-- What the handlers decide.
use mathlib.Core.List.{append-nil}
use meeting_baa_s.Base.{◌≡◌, refl, ap, sym, ◌⊎◌, inl, inr, Bool-cases, List, [], ◌∷◌, ◌++◌}
use meeting_baa_s.Meeting.Dialogs.{
  Handler, Screen, DialogPattern, press_escape, dismiss, dismiss_patterns, dismiss_once,
  try_buttons, dispatch, event_of, is_shown, meet_dialog_patterns,
}

-- Handlers add at most the Escape key.
dismiss-handlers :
    (hs : List Handler) (screen : Screen) (pat : DialogPattern)
    → (dismiss hs screen pat ≡ dismiss [] screen pat)
      ⊎ (dismiss hs screen pat ≡ dismiss [] screen pat ++ (press_escape ∷ []))
unfolding dismiss dispatch
dismiss-handlers hs screen pat =
    elim (Bool-cases (try_buttons screen pat.selector pat.button_texts).0) [
      | inl e ↦ inl (rw e refl)
      | inr e ↦ elim (Bool-cases pat.exit_by_escape) [
        | inl f ↦ inl (rw (e, f) refl)
        | inr f ↦ elim (Bool-cases (dispatch hs (event_of screen pat))) [
          | inr g ↦ inl (rw (e, f, g) refl)
          | inl g ↦ inr (
              rw (e, f, g)
                (ap (λ acts. acts ++ (press_escape ∷ []))
                  (sym (append-nil (try_buttons screen pat.selector pat.button_texts).1))))
        ]
      ]
    ]

dismiss_patterns-handlers :
    (hs : List Handler) (screen : Screen) (pats : List DialogPattern)
    → let quiet = dismiss_patterns [] screen pats in
      (dismiss_patterns hs screen pats ≡ quiet)
      ⊎ (dismiss_patterns hs screen pats ≡ (quiet.0, quiet.1, quiet.2 ++ (press_escape ∷ [])))
unfolding dismiss_patterns
dismiss_patterns-handlers hs screen [] = inl refl
dismiss_patterns-handlers hs screen (pat ∷ pats) =
    elim (Bool-cases (is_shown (screen.modal pat.selector))) [
      | inr e ↦ rw e (dismiss_patterns-handlers hs screen pats)
      | inl e ↦ elim (dismiss-handlers hs screen pat) [
        | inl f ↦ inl (rw e (ap (λ acts. (pat.name, event_of screen pat ∷ [], acts)) f))
        | inr f ↦ inr (rw e (ap (λ acts. (pat.name, event_of screen pat ∷ [], acts)) f))
      ]
    ]

-- Whatever the handlers answer, a cycle finds the dialog, tells of it, and does to the page what it
-- does where there is no handler; at most it presses Escape besides.
dismiss_once-handlers :
    (hs : List Handler) (screen : Screen)
    → (dismiss_once hs screen ≡ dismiss_once [] screen)
      ⊎ (dismiss_once hs screen ≡ (
        (dismiss_once [] screen).0,
        (dismiss_once [] screen).1,
        (dismiss_once [] screen).2 ++ (press_escape ∷ []),
      ))
dismiss_once-handlers hs screen = dismiss_patterns-handlers hs screen meet_dialog_patterns
