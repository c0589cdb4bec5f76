-- ===== src/Api/Access/Limits.antt =====
-- The rate of a key: RateLimit of internal/api/http/middleware/rate_limit.go. The counter of a minute
-- outlives the minute, so its deletion is left out.
use meeting_baa_s.Base.{
  ◌≡◌, ◌≤◌, ◌<◌, ℕ, suc, ◌+◌, ◌-◌, ◌/◌, ◌%◌, String, Bool, true, false, not, ◌&&◌, ◌||◌, Option,
  none, some, List, [], ◌∷◌, Failure, arith, ltb, leb, ◌==◌, str_eq, str_eq_refl, str_eq-eq,
  if◌then◌else◌, Bool-cases, inl, inr, Option-cases, is_some,
}

-- The counters `rate:<key>:<minute>`.
abbrev pub Counters : Type 0
Counters = String → ℕ → ℕ

-- One request: its key's id and limit, a 32-bit word, the clock in seconds, and INCR's error.
pub record Hit : Type 0 where
  pub api_key_id : String
  pub limit : ℕ
  pub now : ℕ
  pub incr : Failure

-- The request goes on to the handler, with what remains of the limit where it was counted, or it is
-- answered 429 with the seconds to wait.
pub data Verdict : Type 0 where
  passed : (remaining : Option ℕ) → Verdict
  limited : (retry_after : ℕ) → Verdict

-- `limit <= 0`, read as a signed word.
abbrev pub is_unlimited : Bool → Hit → Bool
is_unlimited redis h = not redis || h.limit == 0 || ltb 2147483647 h.limit || str_eq h.api_key_id ""

abbrev pub window : Hit → ℕ
window h = h.now / 60

abbrev pub concerns : String → ℕ → Hit → Bool
concerns key w h = str_eq h.api_key_id key && window h == w

unfoldable pub count_up : Hit → Counters → Counters
count_up h counters key w = if concerns key w h then suc (counters key w) else counters key w

unfoldable pub rate_limit : (redis : Bool) → Hit → Counters → Verdict × Counters
rate_limit redis h counters =
    if is_unlimited redis h then (passed none, counters) else elim h.incr [
      | some e ↦ (passed none, counters)
      | none ↦
          let after = count_up h counters in
          let cnt = after h.api_key_id (window h) in
          if ltb h.limit cnt
          then (limited (60 - h.now % 60), after)
          else (passed (some (h.limit - cnt)), after)
    ]

abbrev pub has_passed : Verdict → Bool
has_passed (passed r) = true
has_passed (limited s) = false

-- How many requests of a key pass in a minute, while any others come in between.
unfoldable pub passes : (key : String) → (minute : ℕ) → List Hit → Counters → ℕ
passes key w [] counters = 0
passes key w (h ∷ hs) counters =
    let (verdict, after) = rate_limit true h counters in
    let rest = passes key w hs after in
    if concerns key w h && has_passed verdict then suc rest else rest

-- The key's requests of that minute carry its limit.
abbrev pub AreLimited : (key : String) → (minute limit : ℕ) → List Hit → Type 0
AreLimited key w limit [] = Unit
AreLimited key w limit (h ∷ hs) =
    (concerns key w h ≡ true → h.limit ≡ limit) × AreLimited key w limit hs

-- How many of them Redis does not count.
unfoldable pub uncounted : (key : String) → (minute : ℕ) → List Hit → ℕ
uncounted key w [] = 0
uncounted key w (h ∷ hs) =
    let rest = uncounted key w hs in if concerns key w h && is_some h.incr then suc rest else rest

-- A request that is counted: the counter goes up, and the verdict tells whether it was below.
rate_limit-mine :
    (key : String) (w : ℕ) (h : Hit) (counters : Counters)
    → str_eq key "" ≡ false
    → 1 ≤ h.limit
    → h.limit < 2147483648
    → h.incr ≡ none
    → concerns key w h ≡ true
    → ((rate_limit true h counters).1 key w ≡ suc (counters key w))
      × (has_passed (rate_limit true h counters).0 ≡ leb (suc (counters key w)) h.limit)
unfolding rate_limit count_up
rate_limit-mine key w h counters named least most counted mine =
    let id_eq : h.api_key_id ≡ key = str_eq-eq (ground arith) in
    let w_eq : window h ≡ w = ground arith in
    let same = str_eq_refl key in
    rw (counted) (ground (arith, same, id_eq, w_eq), ground (arith, same, id_eq, w_eq))

-- One that Redis does not count passes and leaves the counters.
rate_limit-failed :
    (h : Hit) (counters : Counters) (e : String)
    → h.incr ≡ some e
    → rate_limit true h counters ≡ (passed none, counters)
unfolding rate_limit
rate_limit-failed h counters e f = ground (arith, f)

rate_limit-other :
    (key : String) (w : ℕ) (h : Hit) (counters : Counters)
    → concerns key w h ≡ false
    → (rate_limit true h counters).1 key w ≡ counters key w
unfolding rate_limit count_up
rate_limit-other key w h counters other = ground arith

-- Of the requests of one key, not empty, in one minute, which carry its limit, a positive int32, no
-- more pass than the limit less what was counted before and those that Redis does not count,
-- whatever other requests come in between.
pub passes_bound :
    (key : String) (w limit : ℕ) (hs : List Hit) (counters : Counters)
    → str_eq key "" ≡ false
    → 1 ≤ limit
    → limit < 2147483648
    → AreLimited key w limit hs
    → passes key w hs counters ≤ (limit - counters key w) + uncounted key w hs
unfolding passes uncounted
passes_bound key w limit [] counters named least most c = omega arith
passes_bound key w limit (h ∷ hs) counters named least most (c, cs) =
    let rest = passes_bound key w limit hs (rate_limit true h counters).1 named least most cs in
    elim (Bool-cases (concerns key w h)) [
      | inl e ↦ elim (Option-cases h.incr) [
        | inl counted ↦
            let l = c e in
            let mine =
              rate_limit-mine key w h counters named (omega (arith, l)) (omega (arith, l)) counted
                e in
            let up = mine.0 in let verdict = mine.1 in ground arith
        | inr (m, failed) ↦ (let passing = rate_limit-failed h counters m failed in ground arith)
      ]
      | inr e ↦ (let up = rate_limit-other key w h counters e in ground arith)
    ]
