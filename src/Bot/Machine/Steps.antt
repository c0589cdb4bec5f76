-- ===== src/Bot/Machine/Steps.antt =====
-- The machine over the states of the package: what holds of every step holds of every run.
use mathlib.Core.Path.{subst}
use meeting_baa_s.Base.{
  ◌≡◌, refl, ◌≢◌, true, false, Option, some, List, [], ◌∷◌, arith, ap, ◌⊎◌, inl, inr, ◌∙◌, All,
  some_inj,
}
use meeting_baa_s.Bot.Types.{
  StateType, initialization, waiting_room, in_call, recording, paused, resuming, cleanup, error,
  terminated,
}
use meeting_baa_s.Bot.World.{Script, World, Dependencies}
use meeting_baa_s.Bot.States.{build_state_map}
use meeting_baa_s.Bot.States.Setup.{execute_initialization, execute_waiting_room, execute_in_call}
use meeting_baa_s.Bot.States.Recording.{execute_recording}
use meeting_baa_s.Bot.States.Paused.{execute_paused, execute_resuming}
use meeting_baa_s.Bot.States.Closing.{execute_cleanup, execute_error, execute_terminated}
use meeting_baa_s.Bot.Machine.{Machine, Round, Run, finished, Step, go, stop, step, run}

-- What `Execute` of the current state comes to, once it returns.
abbrev pub execute : Dependencies → StateType → Script → World → Option (StateType × World)
execute deps initialization s w = some (execute_initialization deps s w)
execute deps waiting_room s w = some (execute_waiting_room s w)
execute deps in_call s w = some (execute_in_call deps s w)
execute deps recording s w = execute_recording deps s w
execute deps paused s w = execute_paused deps s w
execute deps resuming s w = some (execute_resuming deps s w)
execute deps cleanup s w = some (execute_cleanup deps s w)
execute deps error s w = some (execute_error deps s w)
execute deps terminated s w = some (execute_terminated s w)

pub some_pair :
    (P : StateType → World → Type 0) (r : StateType × World) (next : StateType) (w' : World)
    → some r ≡ some (next, w')
    → P r.0 r.1
    → P next w'
some_pair P r next w' h p = subst (λ (x : StateType × World). P x.0 x.1) (some_inj h) p

Step-cases : (s : Step) → ((m : Machine) × (s ≡ go m)) ⊎ ((result : Run) × (s ≡ stop result))
Step-cases (go m) = inl (m, refl)
Step-cases (stop result) = inr (result, refl)

module _ (deps : Dependencies) where
  pub step_at :
      (c : StateType) (w : World) (r : Round) (m' : Machine)
      → step (build_state_map deps) r (record { current = c; world = w }) ≡ go m'
      → (c ≢ terminated)
        × (r.cancelled ≡ false)
        × (execute deps c r.script w ≡ some (m'.current, m'.world))
  unfolding step build_state_map
  step_at initialization w r m' h = ground arith
  step_at recording w r m' h = ground arith
  step_at paused w r m' h = ground arith
  step_at terminated w r m' h = cc
  step_at _ w r m' h = ground arith

  step_end :
      (m : Machine) (r : Round) (m' : Machine)
      → step (build_state_map deps) r m ≡ stop (finished m')
      → ((m.current ≡ terminated) × (m' ≡ m))
        ⊎ ((r.cancelled ≡ true) × (m' ≡ record m { current = terminated }))
  unfolding step build_state_map
  step_end m r m' h = ground arith

  run_nil : (m m' : Machine) → run (build_state_map deps) [] m ≡ finished m' → m' ≡ m
  unfolding run
  run_nil m m' h = ground arith

  pub step_split :
      (m : Machine) (r : Round)
      → ((m' : Machine) × (step (build_state_map deps) r m ≡ go m'))
        ⊎ ((result : Run) × (step (build_state_map deps) r m ≡ stop result))
  step_split m r = Step-cases (step (build_state_map deps) r m)

  module _ (G : Round → Type 0) (P : StateType → World → Type 0)
      (keep : (c : StateType) (r : Round) (w : World) (next : StateType) (w' : World)
        → G r
        → c ≢ terminated
        → execute deps c r.script w ≡ some (next, w')
        → P c w
        → P next w')
      (quit : (c : StateType) (r : Round) (w : World)
        → G r
        → r.cancelled ≡ true
        → P c w
        → P terminated w) where
    -- What every Execute keeps, and a cancelled context keeps, holds at the end of a run.
    pub run_keeps :
        (rs : List Round) (m m' : Machine)
        → All G rs
        → run (build_state_map deps) rs m ≡ finished m'
        → P m.current m.world
        → P m'.current m'.world
    unfolding run
    run_keeps [] m m' g h p = rw (run_nil m m' h) p
    run_keeps (r ∷ rs) m m' (g, gs) h p = elim (step_split m r) [
      | inl (n, e) ↦
          let x = step_at m.current m.world r n e in
          run_keeps rs n m' gs (rw (e, run) at h)
            (keep m.current r m.world n.current n.world g x.0 x.2 p)
      | inr (res, e) ↦ elim (step_end m r m' (e ∙ ap stop (rw (e, run) at h))) [
        | inl (z, y) ↦ rw y p
        | inr (z, y) ↦ rw y (quit m.current r m.world g z p)
      ]
    ]

  end_terminated :
      (m : Machine) (r : Round) (m' : Machine)
      → step (build_state_map deps) r m ≡ stop (finished m')
      → m'.current ≡ terminated
  unfolding step build_state_map
  end_terminated m r m' h = ground arith

  -- A run is only finished in the last state.
  pub run_ends :
      (rs : List Round) (m m' : Machine)
      → run (build_state_map deps) rs m ≡ finished m'
      → m'.current ≡ terminated
  unfolding run
  run_ends [] m m' h = ground arith
  run_ends (r ∷ rs) m m' h = elim (step_split m r) [
    | inl (n, e) ↦ run_ends rs n m' (rw (e, run) at h)
    | inr (res, e) ↦ end_terminated m r m' (e ∙ ap stop (rw (e, run) at h))
  ]
