-- ===== src/Meeting/Dialogs/Loops.antt =====
-- The polling loops of the observer.
use meeting_baa_s.Base.{
  ◌≡◌, refl, ℕ, ◌≤◌, true, Option, none, some, List, [], ◌∷◌, arith, ◌==◌, length, inl, inr,
  Bool-cases,
}
use meeting_baa_s.Meeting.Dialogs.Operations.{
  Watch, Operation, subscribe, pause, resume, attach, stop, expire, operate, operate_all, new_watch,
  end_loop, end_current,
}

-- At most one loop lives, and it is the one that Stop or the next Attach cancels.
abbrev IsSingle : Option ℕ → List ℕ → Type 0
IsSingle cancel [] = Unit
IsSingle none (l ∷ ls) = ⊥
IsSingle (some n) (l ∷ ls) = (l ≡ n) × (ls ≡ [])

end_current-IsSingle : (c : Option ℕ) (live : List ℕ) → IsSingle c live → end_current c live ≡ []
unfolding end_loop
end_current-IsSingle none [] i = refl
end_current-IsSingle none (l ∷ ls) i = absurd i
end_current-IsSingle (some n) [] i = refl
end_current-IsSingle (some n) (l ∷ ls) (e, f) =
    let same : (l == n) ≡ true = ground arith in rw (same, f) refl

end_loop-IsSingle :
    (n : ℕ) (c : Option ℕ) (live : List ℕ) → IsSingle c live → IsSingle c (end_loop n live)
unfolding end_loop
end_loop-IsSingle n c [] i = tt
end_loop-IsSingle n none (l ∷ ls) i = absurd i
end_loop-IsSingle n (some m) (l ∷ ls) (e, f) = elim (Bool-cases (l == n)) [
  | inl g ↦ rw (g, f) tt
  | inr g ↦ rw (g, f) (e, refl)
]

operate-IsSingle :
    (op : Operation) (w : Watch)
    → IsSingle w.observer.cancel w.live
    → IsSingle (operate op w).observer.cancel (operate op w).live
unfolding operate
operate-IsSingle (subscribe none) w i = i
operate-IsSingle (subscribe (some h)) w i = i
operate-IsSingle pause w i = i
operate-IsSingle resume w i = i
operate-IsSingle (attach none) w i = i
operate-IsSingle (attach (some page)) w i = (refl, end_current-IsSingle w.observer.cancel w.live i)
operate-IsSingle stop w i = rw (end_current-IsSingle w.observer.cancel w.live i) tt
operate-IsSingle (expire n) w i = end_loop-IsSingle n w.observer.cancel w.live i

operate_all-IsSingle :
    (ops : List Operation) (w : Watch)
    → IsSingle w.observer.cancel w.live
    → IsSingle (operate_all ops w).observer.cancel (operate_all ops w).live
unfolding operate_all
operate_all-IsSingle [] w i = i
operate_all-IsSingle (op ∷ ops) w i =
    operate_all-IsSingle ops (operate op w) (operate-IsSingle op w i)

IsSingle-length : (c : Option ℕ) (live : List ℕ) → IsSingle c live → length live ≤ 1
IsSingle-length c [] i = omega arith
IsSingle-length none (l ∷ ls) i = absurd i
IsSingle-length (some n) (l ∷ ls) (e, f) = rw f (omega arith)

new_watch-IsSingle : IsSingle new_watch.observer.cancel new_watch.live
unfolding new_watch
new_watch-IsSingle = tt

-- After any operations on a new observer, in any order and with contexts ended in between, at most
-- one polling loop lives, and Stop leaves none.
operate_all_live :
    (ops : List Operation)
    → (length (operate_all ops new_watch).live ≤ 1)
      × ((operate stop (operate_all ops new_watch)).live ≡ [])
unfolding operate
operate_all_live ops =
    let i = operate_all-IsSingle ops new_watch new_watch-IsSingle in
    (
      IsSingle-length (operate_all ops new_watch).observer.cancel (operate_all ops new_watch).live
          i,
      end_current-IsSingle (operate_all ops new_watch).observer.cancel
          (operate_all ops new_watch).live i,
    )
