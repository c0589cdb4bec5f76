-- ===== src/Api/Legacy/Search.antt =====
-- The search in a text.
use meeting_baa_s.Base.{
  ◌≡◌, refl, ap, ◌↔◌, ℕ, suc, true, [], ◌∷◌, ◌++◌, arith, length, length-append, is_some,
  Bool-cases, inl, inr,
}
use meeting_baa_s.Api.Access.{Bytes}
use meeting_baa_s.Api.Legacy.{begins, index_from, index_of, string_contains}

-- The needle stands somewhere in the haystack.
abbrev pub Occurs : (needle haystack : Bytes) → Type 0
Occurs needle haystack = (pre : Bytes) × (post : Bytes) × (pre ++ (needle ++ post) ≡ haystack)

begins-append :
    (needle haystack : Bytes)
    → begins needle haystack ≡ true
    → (post : Bytes) × (needle ++ post ≡ haystack)
begins-append [] h e = (h, refl)
begins-append (c ∷ n) [] e = cc
begins-append (c ∷ n) (d ∷ h) e =
    let (post, rest) = begins-append n h (ground arith) in
    let same : d ≡ c = ground arith in (post, rw same (ap (λ s. c ∷ s) rest))

append-begins : (needle post : Bytes) → begins needle (needle ++ post) ≡ true
append-begins [] post = refl
append-begins (c ∷ n) post = ground (arith, append-begins n post)

index_from-Occurs :
    (needle : Bytes) (i : ℕ) (haystack : Bytes)
    → is_some (index_from needle i haystack) ≡ true
    → Occurs needle haystack
unfolding index_from
index_from-Occurs [] i [] h = ([], [], refl)
index_from-Occurs (c ∷ n) i [] h = absurd (ground arith)
index_from-Occurs needle i (d ∷ s) h = elim (Bool-cases (begins needle (d ∷ s))) [
  | inl e ↦ (let (post, f) = begins-append needle (d ∷ s) e in ([], post, f))
  | inr e ↦
      let (pre, post, f) = index_from-Occurs needle (suc i) s (ground arith) in
      (d ∷ pre, post, ap (λ t. d ∷ t) f)
]

Occurs-index_from :
    (needle : Bytes) (i : ℕ) (pre post : Bytes)
    → is_some (index_from needle i (pre ++ (needle ++ post))) ≡ true
unfolding index_from
Occurs-index_from [] i [] [] = refl
Occurs-index_from [] i [] (d ∷ post) = ground arith
Occurs-index_from (c ∷ n) i [] post =
    ground (arith, append-begins (c ∷ n) post, length-append n post)
Occurs-index_from needle i (d ∷ pre) post = ground (
  arith,
  Occurs-index_from needle (suc i) pre post,
  length-append pre (needle ++ post),
  length-append needle post,
)

-- The search answers true exactly where the needle stands in the haystack.
string_contains-Occurs :
    (haystack needle : Bytes) → (string_contains haystack needle ≡ true) ↔ Occurs needle haystack
unfolding string_contains index_of
string_contains-Occurs haystack [] = ((λ h. ([], haystack, refl)), λ o. refl)
string_contains-Occurs haystack (c ∷ n) = (
  λ h. index_from-Occurs (c ∷ n) 0 haystack (ground arith),
  λ o.
      let (pre, post, e) = o in
      let found = rw e at (Occurs-index_from (c ∷ n) 0 pre post) in
      let size = ap length e in
      ground (arith, length-append pre ((c ∷ n) ++ post), length-append (c ∷ n) post),
)
