-- ===== src/Meeting/Meet/Opening.antt =====
-- The page of a meeting: internal/infra/meeting/meet/open_page.go and close.go, with the cleaner of
-- html_cleaner.go. The browser is outside: `Attempt` is what it answers to one try.
use meeting_baa_s.Base.{
  ◌≡◌, refl, ◌≤◌, ℕ, zero, suc, ◌+◌, Bool, true, false, ◌&&◌, Option, none, some, List, [], ◌∷◌,
  String, Result, ok, err, Failure, leb, arith, Bool-cases, Option-cases, inl, inr, if◌then◌else◌,
}
use meeting_baa_s.Meeting.Meet.{Dom, Act, clicked, sel_leave_call_button, seen}
use Prim.Native.String

-- `status` is none where there is no response; `frozen` is an evaluation that fails or takes longer
-- than 10 seconds.
pub record Attempt : Type 0 where
  pub new_page : Failure
  pub goto : Failure
  pub status : Option ℕ
  pub frozen : Bool

pub data PageCall : Type 0 where
  opened closed : PageCall
  goto : (link : String) → PageCall

abbrev max_open_page_attempts : ℕ
max_open_page_attempts = 3

-- The cleaner: both of its scripts are still to be written, so that nothing is asked of the page.
unfoldable pub inject : (page : Bool) → Failure
inject page = if page then none else some "htmlcleaner: nil page"

abbrev pub answered :
    (itoa : ℕ → String) → Option ℕ → Bool → List PageCall → Result Bool × List PageCall
answered itoa none frozen calls = (ok frozen, calls)
answered itoa (some status) frozen calls =
    if leb 500 status
    then (err (String.◌++◌ "meet: google returned HTTP " (itoa status)), closed ∷ calls)
    else (ok frozen, calls)

-- One try: an error, behind which a page that was opened is closed, or whether the page is frozen.
unfoldable pub try_open :
    (itoa : ℕ → String) → (link : String) → Attempt → List PageCall → Result Bool × List PageCall
try_open itoa link a calls = elim a.new_page [
  | some e ↦ (err (String.◌++◌ "meet: new page: " e), calls)
  | none ↦ elim a.goto [
    | some e ↦
        let what : String = String.◌++◌ link (String.◌++◌ ": " e) in
        (err (String.◌++◌ "meet: goto " what), closed ∷ goto link ∷ opened ∷ calls)
    | none ↦ answered itoa a.status a.frozen (goto link ∷ opened ∷ calls)
  ]
]

-- `left` is the number of tries behind this one; a page that was opened is the result, frozen or not
-- at the last. `attempts` is counted from 0.
unfoldable pub open_meeting_page_with_retry :
    (itoa : ℕ → String)
    → (link : String) → (attempts : ℕ → Attempt) → (left attempt : ℕ) → List PageCall
    → Result Bool × List PageCall
open_meeting_page_with_retry itoa link attempts zero n calls = try_open itoa link (attempts n) calls
open_meeting_page_with_retry itoa link attempts (suc left) n calls =
    let (r, after) = try_open itoa link (attempts n) calls in
    let retried = open_meeting_page_with_retry itoa link attempts left (suc n) (closed ∷ after) in
    elim r [ err e ↦ (err e, after) | ok true ↦ retried | ok false ↦ (ok false, after) ]

-- `context` is whether there is a browser context. A result tells whether its page is frozen.
unfoldable pub open_meeting_page :
    (itoa : ℕ → String)
    → (context : Bool) → (link : String) → (attempts : ℕ → Attempt) → Result Bool × List PageCall
open_meeting_page itoa context link attempts =
    if context
    then open_meeting_page_with_retry itoa link attempts 2 0 []
    else (err "meet: nil browser context", [])

-- The acts on the page, and the error, which is always nil; the click's own error is only logged.
unfoldable pub close_meeting : (page : Bool) → Dom → List Act → Failure × List Act
close_meeting page dom acts =
    if page
    then (
      none,
      if seen (dom.is_visible sel_leave_call_button)
          then clicked sel_leave_call_button ∷ acts
          else acts,
    )
    else (none, acts)

abbrev pub opened_count : List PageCall → ℕ
opened_count [] = 0
opened_count (opened ∷ cs) = suc (opened_count cs)
opened_count (_ ∷ cs) = opened_count cs

abbrev pub closed_count : List PageCall → ℕ
closed_count [] = 0
closed_count (closed ∷ cs) = suc (closed_count cs)
closed_count (_ ∷ cs) = closed_count cs

-- A result has one page open and an error none.
abbrev pub live_pages : Result Bool → ℕ
live_pages (ok frozen) = 1
live_pages (err e) = 0

module _ (itoa : ℕ → String) (link : String) where
  -- From calls that left no page open: one is open with a result and none with an error, at most
  -- `most` more were opened, and a result is frozen only where every try was.
  record IsOpened (most : ℕ) (all_frozen : Bool) (before : List PageCall)
      (p : Result Bool × List PageCall) : Type 0 where
    pub pages : opened_count p.1 ≡ closed_count p.1 + live_pages p.0
    pub bound : opened_count p.1 ≤ opened_count before + most
    pub frozen : p.0 ≡ ok true → all_frozen ≡ true

  answered-IsOpened :
      (status : Option ℕ) (frozen : Bool) (calls : List PageCall)
      → opened_count calls ≡ closed_count calls
      → IsOpened 1 frozen calls (answered itoa status frozen (goto link ∷ opened ∷ calls))
  answered-IsOpened none frozen calls h = record {
    pages = omega arith;
    bound = omega arith;
    frozen = λ e. cc;
  }
  answered-IsOpened (some status) frozen calls h = elim (Bool-cases (leb 500 status)) [
    | inl e ↦ rw e (record { pages = omega arith; bound = omega arith; frozen = λ g. cc })
    | inr e ↦ rw e (record { pages = omega arith; bound = omega arith; frozen = λ g. cc })
  ]

  try_open-IsOpened :
      (a : Attempt) (calls : List PageCall)
      → opened_count calls ≡ closed_count calls
      → IsOpened 1 a.frozen calls (try_open itoa link a calls)
  unfolding try_open
  try_open-IsOpened a calls h = elim (Option-cases a.new_page) [
    | inr (e, n) ↦
        rw (n, try_open) (record { pages = omega arith; bound = omega arith; frozen = λ g. cc })
    | inl n ↦ elim (Option-cases a.goto) [
      | inr (e, g) ↦
          rw (n, g, try_open)
            (record { pages = omega arith; bound = omega arith; frozen = λ f. cc })
      | inl g ↦ rw (n, g, try_open) (answered-IsOpened a.status a.frozen calls h)
    ]
  ]

  -- Whether the tries from the n-th on are frozen, `left` of them behind it.
  abbrev pub are_frozen : (ℕ → Attempt) → (left n : ℕ) → Bool
  are_frozen attempts zero n = (attempts n).frozen
  are_frozen attempts (suc left) n = (attempts n).frozen && are_frozen attempts left (suc n)

  retried-IsOpened :
      (attempts : ℕ → Attempt) (left n : ℕ) (r : Result Bool) (before after : List PageCall)
      → IsOpened 1 (attempts n).frozen before (r, after)
      → (opened_count after ≡ suc (closed_count after)
          → IsOpened
              (suc left)
              (are_frozen attempts left (suc n))
              (closed ∷ after)
              (open_meeting_page_with_retry itoa link attempts left (suc n) (closed ∷ after)))
      → IsOpened (suc (suc left)) (are_frozen attempts (suc left) n) before (elim r [
        | err e ↦ (err e, after)
        | ok true ↦ open_meeting_page_with_retry itoa link attempts left (suc n) (closed ∷ after)
        | ok false ↦ (ok false, after)
      ])
  retried-IsOpened attempts left n (err e) before after a b =
      let pages = a.pages in
      let bound = a.bound in record { pages = omega arith; bound = omega arith; frozen = λ f. cc }
  retried-IsOpened attempts left n (ok false) before after a b =
      let pages = a.pages in
      let bound = a.bound in record { pages = omega arith; bound = omega arith; frozen = λ f. cc }
  retried-IsOpened attempts left n (ok true) before after a b =
      let pages = a.pages in
      let bound = a.bound in
      let c = b (omega arith) in
      let pages' = c.pages in
      let bound' = c.bound in
      record {
        pages = pages';
        bound = omega arith;
        frozen = λ f. let here = a.frozen refl in let later = c.frozen f in ground arith;
      }

  with_retry-IsOpened :
      (attempts : ℕ → Attempt) (left n : ℕ) (calls : List PageCall)
      → opened_count calls ≡ closed_count calls
      → IsOpened
          (suc left)
          (are_frozen attempts left n)
          calls
          (open_meeting_page_with_retry itoa link attempts left n calls)
  unfolding open_meeting_page_with_retry
  with_retry-IsOpened attempts zero n calls h = try_open-IsOpened (attempts n) calls h
  with_retry-IsOpened attempts (suc left) n calls h =
      let (r, after) = try_open itoa link (attempts n) calls in
      retried-IsOpened attempts left n r calls after (try_open-IsOpened (attempts n) calls h)
        (λ e. with_retry-IsOpened attempts left (suc n) (closed ∷ after) (omega arith))

  -- Opening the page of a meeting opens three pages at most, whatever the browser answers, and every
  -- one that it opened is closed but the one it gives: none is left behind an error. It gives a frozen
  -- page only where all three were frozen.
  pub open_meeting_page-IsOpened :
      (context : Bool) (attempts : ℕ → Attempt)
      → let (r, calls) = open_meeting_page itoa context link attempts in
        (opened_count calls ≡ closed_count calls + live_pages r)
        × (opened_count calls ≤ 3)
        × (r ≡ ok true → are_frozen attempts 2 0 ≡ true)
  unfolding open_meeting_page
  open_meeting_page-IsOpened false attempts = (refl, omega arith, λ e. cc)
  open_meeting_page-IsOpened true attempts =
      let o = with_retry-IsOpened attempts 2 0 [] refl in
      let pages = o.pages in let bound = o.bound in (pages, bound, o.frozen)
