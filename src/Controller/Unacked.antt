-- ===== src/Controller/Unacked.antt =====
-- What becomes of a message whose worker failed.
use meeting_baa_s.Base.{
  ◌≡◌, refl, ap, ◌∙◌, String, Bool, true, false, ◌||◌, Option, none, some, List, [], ◌∷◌, Result,
  ok, err, Failure, arith, str_eq, str_eq-eq, is_some, Bool-cases, Option-cases, Result-cases,
  List-cases, inl, inr, ltb,
}
use meeting_baa_s.Api.Bots.{Job}
use meeting_baa_s.Controller.{
  Message, Queue, remove, ack, read_one, Worker, handle_job, Controller, Event, round, finished,
  is_running, step, run, after_read,
}

abbrev pub is_waiting : String → List Message → Bool
is_waiting id [] = false
is_waiting id (m ∷ ms) = str_eq m.id id || is_waiting id ms

-- Pending, neither worked on nor still to be delivered.
pub record IsStuck (id : String) (c : Controller) : Type 0 where
  pub pending : is_running id c.queue.pending ≡ true
  pub idle : is_running id c.workers ≡ false
  pub delivered : is_waiting id c.queue.waiting ≡ false

remove_apart :
    (id other : String) (xs : List String)
    → str_eq id other ≡ false
    → is_running other (remove id xs) ≡ is_running other xs
unfolding remove
remove_apart id other [] h = refl
remove_apart id other (x ∷ xs) h = elim (Bool-cases (str_eq x id)) [
  | inl e ↦
      (let same = str_eq-eq e in
        let apart : str_eq x other ≡ false = rw same h in rw (e, apart) refl)
  | inr e ↦ (let rest = remove_apart id other xs h in ground (arith, rest))
]

remove_absent :
    (id other : String) (xs : List String)
    → is_running other xs ≡ false
    → is_running other (remove id xs) ≡ false
unfolding remove
remove_absent id other [] h = refl
remove_absent id other (x ∷ xs) h = ground (arith, remove_absent id other xs)

read_one-IsStuck :
    (down acked : Failure) (q : Queue) (id : String)
    → is_running id q.pending ≡ true
    → is_waiting id q.waiting ≡ false
    → (is_running id (read_one down acked q).1.pending ≡ true)
      × (is_waiting id (read_one down acked q).1.waiting ≡ false)
unfolding read_one ack
read_one-IsStuck (some e) acked q id p w = (p, w)
read_one-IsStuck none acked q id p w = elim (List-cases q.waiting) [
  | inl h ↦ rw h (p, refl)
  | inr (m, ms, h) ↦
      let there = rw h at w in
      elim (Result-cases m.payload) [
        | inl (job, k) ↦ rw (h, k) (ground arith, ground arith)
        | inr (e, k) ↦ elim (Option-cases acked) [
          | inr (f, l) ↦ rw (h, k, l) (ground arith, ground arith)
          | inl l ↦
              rw (h, k, l) (ground (arith, remove_apart m.id id (m.id ∷ q.pending)), ground arith)
        ]
      ]
]

read_one_apart :
    (down acked : Failure) (q : Queue) (id other : String) (job : Job)
    → is_waiting id q.waiting ≡ false
    → (read_one down acked q).0 ≡ ok (some (job, other))
    → str_eq other id ≡ false
unfolding read_one
read_one_apart (some e) acked q id other job w h = absurd (ground arith)
read_one_apart none acked q id other job w h = elim (List-cases q.waiting) [
  | inl e ↦ absurd (ground (arith, rw e at h))
  | inr (m, ms, e) ↦ elim (Result-cases m.payload) [
    | inr (f, k) ↦ absurd (ground (arith, rw (e, k) at h))
    | inl (j, k) ↦
        let same : m.id ≡ other = ground (arith, rw (e, k) at h) in
        let first = rw e at w in rw⁻¹ same (ground arith)
  ]
]

after_read-IsStuck :
    (id : String) (c : Controller) (r : Result (Option (Job × String))) (q : Queue)
    → is_running id c.workers ≡ false
    → (is_running id q.pending ≡ true) × (is_waiting id q.waiting ≡ false)
    → ((job : Job) (other : String) → r ≡ ok (some (job, other)) → str_eq other id ≡ false)
    → IsStuck id (after_read c (r, q))
after_read-IsStuck id c (err e) q idle (p, w) apart = record {
  pending = p;
  idle = idle;
  delivered = w;
}
after_read-IsStuck id c (ok none) q idle (p, w) apart = record {
  pending = p;
  idle = idle;
  delivered = w;
}
after_read-IsStuck id c (ok (some (job, other))) q idle (p, w) apart = record {
  pending = p;
  idle = ground (arith, apart job other refl);
  delivered = w;
}

-- The job of another message is handled.
handle_job_apart :
    (w : Worker) (id other : String) (q : Queue)
    → str_eq other id ≡ false
    → (is_running id (handle_job w other q).pending ≡ is_running id q.pending)
      × (is_waiting id (handle_job w other q).waiting ≡ is_waiting id q.waiting)
unfolding handle_job ack
handle_job_apart w id other q h = (ground (arith, remove_apart other id q.pending h), ground arith)

running_apart :
    (id other : String) (xs : List String)
    → is_running id xs ≡ false
    → is_running other xs ≡ true
    → str_eq other id ≡ false
running_apart id other xs idle busy = elim (Bool-cases (str_eq other id)) [
  | inr e ↦ e
  | inl e ↦ absurd (ground (arith, ap (λ n. is_running n xs) (str_eq-eq e)))
]

step-IsStuck : (id : String) (e : Event) (c : Controller) → IsStuck id c → IsStuck id (step e c)
unfolding step
step-IsStuck id (round down acked) c i = elim (Bool-cases (ltb c.slots c.max_parallel)) [
  | inr e ↦ rw e i
  | inl e ↦ rw e (
      after_read-IsStuck id c (read_one down acked c.queue).0 (read_one down acked c.queue).1 i.idle
        (read_one-IsStuck down acked c.queue id i.pending i.delivered)
        (λ job other. read_one_apart down acked c.queue id other job i.delivered))
]
step-IsStuck id (finished other w) c i = elim (Bool-cases (is_running other c.workers)) [
  | inr e ↦ rw e i
  | inl e ↦
      let (p, d) =
        handle_job_apart w id other c.queue (running_apart id other c.workers i.idle e) in
      rw e (record {
        pending = p ∙ i.pending;
        idle = remove_absent other id c.workers i.idle;
        delivered = d ∙ i.delivered;
      })
]

run-steps : (id : String) (es : List Event) (c : Controller) → IsStuck id c → IsStuck id (run es c)
unfolding run
run-steps id [] c i = i
run-steps id (e ∷ es) c i = run-steps id es _ (step-IsStuck id e c i)

-- The log could not be opened, the process not started, or it exited with an error.
abbrev pub has_failed : Worker → Bool
has_failed w = is_some w.opened || is_some w.started || is_some w.waited

-- A message whose only worker failed, pending and delivered once, stays so whatever follows: no
-- round gives it to a worker again, and nothing acknowledges it.
pub run-IsStuck :
    (id : String) (w : Worker) (es : List Event) (c : Controller)
    → has_failed w ≡ true
    → is_running id c.workers ≡ true
    → is_running id (remove id c.workers) ≡ false
    → is_running id c.queue.pending ≡ true
    → is_waiting id c.queue.waiting ≡ false
    → IsStuck id (run es (step (finished id w) c))
unfolding step handle_job
run-IsStuck id w es c failed busy once pending delivered =
    run-steps id es _
      (rw busy (record { pending = ground arith; idle = once; delivered = ground arith }))
