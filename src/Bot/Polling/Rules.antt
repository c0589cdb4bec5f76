-- ===== src/Bot/Polling/Rules.antt =====
-- Rules for a polling loop: what its body keeps holds when it is left, and when it is left.
use mathlib.Core.Path.{subst}
use mathlib.Core.List.{reverse_aux}
use meeting_baa_s.Base.{
  ◌≡◌, refl, Bool, true, false, Option, none, some, List, [], ◌∷◌, ◌++◌, any, if◌then◌else◌, inl,
  inr, ap, Bool-cases, some_inj, sym,
}
use meeting_baa_s.Bot.Types.{StateType}
use meeting_baa_s.Bot.Context.{MeetingContext}
use meeting_baa_s.Bot.World.{Tick, World, with_mc}
use meeting_baa_s.Bot.Polling.{Poll, leave, again, poll, into_world}

-- A round that leaves does so with `P`, and one that goes on keeps `Q`.
pub data Leaves (P : StateType → MeetingContext → Type 0) (Q : MeetingContext → Type 0)
    : Poll → Type 0 where
  left : {next : StateType} {mc : MeetingContext} → P next mc → Leaves P Q (leave next mc)
  stays : {mc : MeetingContext} → Q mc → Leaves P Q (again mc)

pub Leaves-if :
    {P : StateType → MeetingContext → Type 0} {Q : MeetingContext → Type 0} (b : Bool) {p q : Poll}
    → (b ≡ true → Leaves P Q p)
    → (b ≡ false → Leaves P Q q)
    → Leaves P Q (if b then p else q)
Leaves-if true f g = f refl
Leaves-if false f g = g refl

abbrev Seen :
    (List Tick → StateType → MeetingContext → Type 0)
    → List Tick
    → List Tick
    → StateType
    → MeetingContext
    → Type 0
Seen P seen ts next mc' =
    (used : List Tick) × (rest : List Tick) × (used ++ rest ≡ ts)
    × P (reverse_aux used seen) next mc'

module _ (body : Tick → MeetingContext → Poll) (P : List Tick → StateType → MeetingContext → Type 0)
    (I : List Tick → MeetingContext → Type 0)
    (keep : (seen : List Tick) (t : Tick) (mc : MeetingContext)
      → I seen mc
      → Leaves (P (t ∷ seen)) (I (t ∷ seen)) (body t mc)) where
  -- An invariant of the rounds gone through, the latest first.
  pub poll-Seen :
      (seen ts : List Tick) (mc : MeetingContext) (next : StateType) (mc' : MeetingContext)
      → I seen mc
      → poll body ts mc ≡ some (next, mc')
      → Seen P seen ts next mc'
  unfolding poll
  poll-Seen seen [] mc next mc' i h = cc
  poll-Seen seen (t ∷ ts) mc next mc' i h =
      go (λ m q k. poll-Seen (t ∷ seen) ts m next mc' q k) (body t mc) refl (keep seen t mc i)
    where
      go :
          (later : (m : MeetingContext)
            → I (t ∷ seen) m
            → poll body ts m ≡ some (next, mc')
            → Seen P (t ∷ seen) ts next mc')
          (x : Poll)
          → body t mc ≡ x
          → Leaves (P (t ∷ seen)) (I (t ∷ seen)) x
          → Seen P seen (t ∷ ts) next mc'
      go later (leave n m) e (left p) = (
        t ∷ [],
        ts,
        refl,
        subst (λ (x : StateType × MeetingContext). P (t ∷ seen) x.0 x.1)
            (some_inj (rw (e, poll) at h)) p,
      )
      go later (again m) e (stays q) =
          let (used, rest, split, found) = later m q (rw (e, poll) at h) in
          (t ∷ used, rest, ap (λ (l : List Tick). t ∷ l) split, found)

-- The rule for what does not depend on the rounds gone through.
pub poll_rule :
    (body : Tick → MeetingContext → Poll) (P : StateType → MeetingContext → Type 0)
    (I : MeetingContext → Type 0)
    → ((t : Tick) (mc : MeetingContext) → I mc → Leaves P I (body t mc))
    → (ts : List Tick) (mc : MeetingContext) (next : StateType) (mc' : MeetingContext) → I mc
    → poll body ts mc ≡ some (next, mc')
    → P next mc'
poll_rule body P I keep ts mc next mc' i h =
    (poll-Seen body (λ seen. P) (λ seen. I) (λ seen. keep) [] ts mc next mc' i h).3

stays_not : {m : MeetingContext} → Leaves (λ n mc. Unit) (λ mc. ⊥) (again m) → ⊥
stays_not (stays q) = q

-- A loop whose body leaves at some round that the script holds is left.
pub poll_total :
    (body : Tick → MeetingContext → Poll) (last : Tick → Bool)
    → ((t : Tick) (mc : MeetingContext) → last t ≡ true → Leaves (λ n m. Unit) (λ m. ⊥) (body t mc))
    → (ts : List Tick) (mc : MeetingContext) → any last ts ≡ true
    → (r : StateType × MeetingContext) × (poll body ts mc ≡ some r)
unfolding poll
poll_total body last leaves [] mc h = cc
poll_total body last leaves (t ∷ ts) mc h =
    go (λ m k. poll_total body last leaves ts m k) (body t mc) refl (leaves t mc)
  where
    go :
        (later : (m : MeetingContext)
          → any last ts ≡ true
          → (r : StateType × MeetingContext) × (poll body ts m ≡ some r))
        (x : Poll)
        → body t mc ≡ x
        → (last t ≡ true → Leaves (λ n m. Unit) (λ m. ⊥) x)
        → (r : StateType × MeetingContext) × (poll body (t ∷ ts) mc ≡ some r)
    go later (leave n m) e f = ((n, m), rw (e, poll))
    go later (again m) e f = elim (Bool-cases (last t)) [
      | inl y ↦ absurd (stays_not (f y))
      | inr n ↦ let (r, found) = later m (rw n at h) in (r, rw (e, poll) found)
    ]

pub into_world-eq-some :
    (w : World) (o : Option (StateType × MeetingContext)) {next : StateType} {w' : World}
    → into_world w o ≡ some (next, w')
    → (mc : MeetingContext) × (o ≡ some (next, mc)) × (w' ≡ with_mc mc w)
into_world-eq-some w none h = cc
into_world-eq-some w (some (n, mc)) h =
    let e = some_inj h in
    (
      mc,
      ap (λ (x : StateType × World). some (x.0, mc)) e,
      sym (ap (λ (x : StateType × World). x.1) e),
    )
