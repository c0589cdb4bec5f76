-- ===== src/Controller/Slots.antt =====
-- The slots of the controller, and the messages that its workers work on.
use meeting_baa_s.Base.{
  ◌≡◌, refl, ap, ◌≤◌, ◌<◌, ℕ, suc, ◌-◌, String, true, false, Option, none, some, List, [], ◌∷◌,
  Result, ok, err, Failure, arith, ltb, str_eq, str_eq_refl, str_eq-eq, if◌then◌else◌, length,
  Bool-cases, Option-cases, Result-cases, List-cases, inl, inr,
}
use meeting_baa_s.Api.Bots.{Job}
use meeting_baa_s.Controller.{
  ControllerOptions, Environment, apply_controller_env_defaults, Queue, remove, ack, read_one,
  Worker, handle_job, Controller, new_controller, Event, round, finished, is_running, step, run,
  after_read,
}

abbrev pub occurrences : String → List String → ℕ
occurrences id [] = 0
occurrences id (x ∷ xs) = if str_eq x id then suc (occurrences id xs) else occurrences id xs

-- Each worker holds one slot, there are no more than allowed, at least one is, and no message that
-- is worked on is acknowledged.
pub record IsSound (c : Controller) : Type 0 where
  pub held : c.slots ≡ length c.workers
  pub bounded : c.slots ≤ c.max_parallel
  pub positive : 1 ≤ c.max_parallel
  pub unacked : (id : String) → occurrences id c.workers ≤ occurrences id c.queue.pending

new_controller-IsSound :
    (env : Environment) (o : ControllerOptions) (q : Queue) → IsSound (new_controller env o q)
unfolding new_controller apply_controller_env_defaults
new_controller-IsSound env o q = record {
  held = refl;
  bounded = omega arith;
  positive = ground arith;
  unacked = λ id. omega arith;
}

length-remove :
    (id : String) (xs : List String)
    → is_running id xs ≡ true
    → suc (length (remove id xs)) ≡ length xs
unfolding remove
length-remove id [] h = cc
length-remove id (x ∷ xs) h = ground (arith, length-remove id xs)

remove_other :
    (id other : String) (xs : List String)
    → str_eq id other ≡ false
    → occurrences other (remove id xs) ≡ occurrences other xs
unfolding remove
remove_other id other [] h = refl
remove_other id other (x ∷ xs) h = elim (Bool-cases (str_eq x id)) [
  | inl e ↦
      (let same = str_eq-eq e in
        let apart : str_eq x other ≡ false = rw same h in rw (e, apart) refl)
  | inr e ↦ (let rest = remove_other id other xs h in ground (arith, rest))
]

remove_same :
    (id : String) (xs : List String) → occurrences id (remove id xs) ≡ occurrences id xs - 1
unfolding remove
remove_same id [] = omega arith
remove_same id (x ∷ xs) = ground (arith, remove_same id xs)

remove_both :
    (id other : String) (xs ys : List String)
    → occurrences other xs ≤ occurrences other ys
    → occurrences other (remove id xs) ≤ occurrences other (remove id ys)
remove_both id other xs ys h = elim (Bool-cases (str_eq id other)) [
  | inl e ↦
      (let same = str_eq-eq e in
        rw⁻¹ same (
          rw (remove_same id xs, remove_same id ys)
            (let g : occurrences id xs ≤ occurrences id ys = rw same h in omega arith)))
  | inr e ↦ rw (remove_other id other xs e, remove_other id other ys e) h
]

remove_fewer :
    (id other : String) (xs : List String) → occurrences other (remove id xs) ≤ occurrences other xs
remove_fewer id other xs = elim (Bool-cases (str_eq id other)) [
  | inl e ↦ (let same = str_eq-eq e in rw⁻¹ same (rw (remove_same id xs) (omega arith)))
  | inr e ↦ rw (remove_other id other xs e) (omega arith)
]

handle_job-unacked :
    (w : Worker) (id other : String) (xs : List String) (q : Queue)
    → occurrences other xs ≤ occurrences other q.pending
    → occurrences other (remove id xs) ≤ occurrences other (handle_job w id q).pending
unfolding handle_job ack
handle_job-unacked w id other xs q h =
    ground (arith, remove_both id other xs q.pending h, remove_fewer id other xs)

finished-IsSound :
    (id : String) (w : Worker) (c : Controller) → IsSound c → IsSound (step (finished id w) c)
unfolding step
finished-IsSound id w c i = elim (Bool-cases (is_running id c.workers)) [
  | inr e ↦ rw e i
  | inl e ↦
      let fewer = length-remove id c.workers e in
      let held = i.held in
      let bounded = i.bounded in
      rw e (record {
        held = omega arith;
        bounded = omega arith;
        positive = i.positive;
        unacked = λ other. handle_job-unacked w id other c.workers c.queue (i.unacked other);
      })
]

remove_head : (id : String) (xs : List String) → remove id (id ∷ xs) ≡ xs
unfolding remove
remove_head id xs = rw (str_eq_refl id) refl

-- What ReadOne leaves of the pending entries: none of the earlier ones is lost.
read_one-pending :
    (down acked : Failure) (q : Queue) (id : String)
    → occurrences id q.pending ≤ occurrences id (read_one down acked q).1.pending
unfolding read_one ack
read_one-pending (some e) acked q id = omega arith
read_one-pending none acked q id = elim (List-cases q.waiting) [
  | inl h ↦ rw h (omega arith)
  | inr (m, ms, h) ↦ elim (Result-cases m.payload) [
    | inl (job, k) ↦ rw (h, k) (ground arith)
    | inr (e, k) ↦ elim (Option-cases acked) [
      | inr (f, l) ↦ rw (h, k, l) (ground arith)
      | inl l ↦ rw (h, k, l) (ground (arith, str_eq_refl m.id, remove_head m.id q.pending))
    ]
  ]
]

read_one-job :
    (down acked : Failure) (q : Queue) (job : Job) (id : String)
    → (read_one down acked q).0 ≡ ok (some (job, id))
    → (read_one down acked q).1.pending ≡ id ∷ q.pending
unfolding read_one
read_one-job (some e) acked q job id h = absurd (ground arith)
read_one-job none acked q job id h = elim (List-cases q.waiting) [
  | inl e ↦ absurd (ground (arith, rw e at h))
  | inr (m, ms, e) ↦ elim (Result-cases m.payload) [
    | inl (j, k) ↦
        (let same : m.id ≡ id = ground (arith, rw (e, k) at h) in
          rw (e, k) (ap (λ n. n ∷ q.pending) same))
    | inr (f, k) ↦ absurd (ground (arith, rw (e, k) at h))
  ]
]

after_read-IsSound :
    (c : Controller) (r : Result (Option (Job × String))) (q : Queue)
    → IsSound c
    → c.slots < c.max_parallel
    → ((id : String) → occurrences id c.queue.pending ≤ occurrences id q.pending)
    → ((job : Job) (id : String) → r ≡ ok (some (job, id)) → q.pending ≡ id ∷ c.queue.pending)
    → IsSound (after_read c (r, q))
after_read-IsSound c (err e) q i free kept read = record {
  held = i.held;
  bounded = i.bounded;
  positive = i.positive;
  unacked = λ id. omega (arith, i.unacked id, kept id);
}
after_read-IsSound c (ok none) q i free kept read = record {
  held = i.held;
  bounded = i.bounded;
  positive = i.positive;
  unacked = λ id. omega (arith, i.unacked id, kept id);
}
after_read-IsSound c (ok (some (job, id))) q i free kept read = record {
  held = (let held = i.held in omega arith);
  bounded = omega arith;
  positive = i.positive;
  unacked = λ other. rw (read job id refl) (ground (arith, i.unacked other));
}

round-IsSound :
    (down acked : Failure) (c : Controller) → IsSound c → IsSound (step (round down acked) c)
unfolding step
round-IsSound down acked c i = elim (Bool-cases (ltb c.slots c.max_parallel)) [
  | inr e ↦ rw e i
  | inl e ↦ rw e (
      after_read-IsSound c (read_one down acked c.queue).0 (read_one down acked c.queue).1 i
        (ground arith) (read_one-pending down acked c.queue) (read_one-job down acked c.queue))
]

run-steps : (es : List Event) (c : Controller) → IsSound c → IsSound (run es c)
unfolding run
run-steps [] c i = i
run-steps (round down acked ∷ es) c i = run-steps es _ (round-IsSound down acked c i)
run-steps (finished id w ∷ es) c i = run-steps es _ (finished-IsSound id w c i)

-- From a new controller, with any options and environment, after any rounds of its loop and ends of
-- its workers in any order: each running worker holds one slot, no more run than the limit, which is
-- positive, and no message that a worker still works on is acknowledged.
pub run-IsSound :
    (env : Environment) (o : ControllerOptions) (q : Queue) (es : List Event)
    → IsSound (run es (new_controller env o q))
run-IsSound env o q es = run-steps es _ (new_controller-IsSound env o q)
