-- ===== src/Meeting/Meet/Naming.antt =====
-- How long typing the bot's name takes.
use meeting_baa_s.Base.{
  ◌≡◌, refl, ◌≤◌, ◌+◌, ◌⊎◌, inl, inr, ℕ, zero, suc, String, false, List, [], ◌∷◌, arith, is_some,
  length, Bool-cases,
}
use meeting_baa_s.Meeting.Meet.{
  Dom, Act, Typed, name_backoff, type_name_loop, type_bot_name_with_retry, try_fill, sel_name_input,
  sel_name_input_fallback,
}

abbrev pub total : List ℕ → ℕ
total [] = 0
total (n ∷ ns) = n + total ns

-- The sleeps behind `left` attempts from the number `attempt` on.
abbrev backoffs : ℕ → ℕ → ℕ
backoffs zero attempt = 0
backoffs (suc left) attempt = name_backoff attempt + backoffs left (suc attempt)

record Sleeps (left attempt : ℕ) (waits : List ℕ) (t : Typed) : Type 0 where
  bounded : total t.waits ≤ total waits + backoffs left attempt
  counted : length t.waits ≤ length waits + left
  failed : (is_some t.error ≡ false) ⊎ (length t.waits ≡ length waits + left)

loop-Sleeps :
    (doms : ℕ → Dom) (name : String) (left attempt : ℕ) (acts : List Act) (waits : List ℕ)
    → Sleeps left attempt waits (type_name_loop doms name left attempt acts waits)
unfolding type_name_loop
loop-Sleeps doms name zero attempt acts waits = record {
  bounded = omega arith;
  counted = omega arith;
  failed = inr (omega arith);
}
loop-Sleeps doms name (suc left) attempt acts waits =
    let first = try_fill (doms attempt) name sel_name_input acts in
    let second = try_fill (doms attempt) name sel_name_input_fallback first.1 in
    let later = loop-Sleeps doms name left (suc attempt) second.1 (name_backoff attempt ∷ waits) in
    let bounded = later.bounded in
    let counted = later.counted in
    let failed = later.failed in
    elim (Bool-cases first.0) [
      | inl f ↦
          rw (f, type_name_loop)
            (record { bounded = omega arith; counted = omega arith; failed = inl refl })
      | inr f ↦ elim (Bool-cases second.0) [
        | inl g ↦
            rw (f, g, type_name_loop)
              (record { bounded = omega arith; counted = omega arith; failed = inl refl })
        | inr g ↦
            rw (f, g, type_name_loop)
              (record { bounded = omega arith; counted = omega arith; failed = ground arith })
      ]
    ]

total_backoffs : backoffs 10 1 ≡ 33000000000
unfolding name_backoff
total_backoffs = refl

-- Typing the name sleeps at most ten times and 33 seconds in all, and an error means that all ten
-- attempts failed.
type_bot_name_waits :
    (doms : ℕ → Dom) (name : String) (acts : List Act)
    → let t = type_bot_name_with_retry doms name acts in
      (total t.waits ≤ 33000000000)
      × (length t.waits ≤ 10)
      × ((is_some t.error ≡ false) ⊎ (length t.waits ≡ 10))
unfolding type_bot_name_with_retry
type_bot_name_waits doms name acts =
    let s = loop-Sleeps doms name 10 1 acts [] in
    let bounded = s.bounded in
    let counted = s.counted in (omega (arith, total_backoffs), counted, s.failed)
