-- ===== src/Sched/Start.antt =====
-- The start of the scheduler, and `queue_empty`.
use simple_32bit_os.Base.{
  ℕ, zero, suc, ◌≡◌, ◌≢◌, ◌↔◌, refl, ap, ◌∙◌, inl, inr, some, List, ◌∷◌, [], arith, Bool-cases,
  get_elem?, length, get_elem?-lt, false, minus_one,
}
use simple_32bit_os.Queue.{Ptr, Queue, max_queue_size, empty}
use simple_32bit_os.Queue.Contents
use simple_32bit_os.Queue.Contents.{contents, enqueue-contents}
use simple_32bit_os.Sched.{
  Sched, max_prio, init_scheduler, reset, reset_all, any_ready, queue_empty,
}
use simple_32bit_os.Sched.Get.{EmptyBelow}
use simple_32bit_os.Sched.Valid.{IsValid}

reset_all_at :
    (qs : List Queue) (j : ℕ) (q : Queue)
    → get_elem? (reset_all qs) j ≡ some q
    → (q' : Queue) × (get_elem? qs j ≡ some q') × (q ≡ record q' { size = 0 })
unfolding reset_all reset
reset_all_at [] j q e = cc
reset_all_at (x ∷ xs) zero q e = (x, refl, cc)
reset_all_at (x ∷ xs) (suc j) q e = reset_all_at xs j q e

length-reset_all : (qs : List Queue) → length (reset_all qs) ≡ length qs
unfolding reset_all
length-reset_all [] = refl
length-reset_all (x ∷ xs) = ap suc (length-reset_all xs)

-- The static arrays, before `init_scheduler`: their sizes, whatever they hold; the counters are 0.
pub record IsStatic (s : Sched) : Type 0 where
  pub queues : length s.mlq_ready_queue ≡ max_prio
  pub arrays :
      (j : ℕ) (q : Queue) → get_elem? s.mlq_ready_queue j ≡ some q → length q.proc ≡ max_queue_size
  pub running : Contents.IsValid s.running_list
  pub prio_zero : s.curr_prio ≡ 0
  pub slot_zero : s.curr_slot ≡ 0

-- From static arrays of the declared sizes and any content, a valid running list and counters 0,
-- `init_scheduler` sets up the invariant, with every queue empty.
pub init_scheduler-IsValid :
    {s : Sched} → IsStatic s → IsValid (init_scheduler s) × EmptyBelow (init_scheduler s) max_prio
unfolding init_scheduler
init_scheduler-IsValid {s} v = (
  record {
    queues = length-reset_all s.mlq_ready_queue ∙ v.queues;
    arrays = λ j q at.
        let (q', at', e) = reset_all_at s.mlq_ready_queue j q at in
        rw e (record { slots = v.arrays j q' at'; bounded = omega arith });
    placed = λ j i q p at at'.
        let (q', _, e) = reset_all_at s.mlq_ready_queue j q at in
        let none_there : get_elem? {A = Ptr} [] i ≡ some p = rw e at at' in absurd (cc);
    running = v.running;
    slots = refl;
    prio_in = omega (arith, v.prio_zero);
    slot_in = omega (arith, v.prio_zero, v.slot_zero);
  },
  λ j q at lt. let (q', _, e) = reset_all_at s.mlq_ready_queue j q at in rw e,
)

any_ready_all :
    (qs : List Queue)
    → any_ready qs ≡ false
    → (j : ℕ) (q : Queue) → get_elem? qs j ≡ some q
    → q.size ≡ 0
unfolding any_ready empty
any_ready_all [] e j q at = cc
any_ready_all (x ∷ xs) e zero q at = ground arith
any_ready_all (x ∷ xs) e (suc j) q at = any_ready_all xs (ground arith) j q at

any_ready_none :
    (qs : List Queue)
    → ((j : ℕ) (q : Queue) → get_elem? qs j ≡ some q → q.size ≡ 0)
    → any_ready qs ≡ false
unfolding any_ready empty
any_ready_none [] h = refl
any_ready_none (x ∷ xs) h = ground (arith, h 0 x refl, any_ready_none xs (λ j q at. h (suc j) q at))

-- In a valid scheduler `queue_empty` returns something else than -1 exactly when no process is
-- ready in any of the 140 queues.
pub queue_empty-minus_one :
    {s : Sched} → IsValid s → (queue_empty s ≢ minus_one) ↔ EmptyBelow s max_prio
unfolding queue_empty
queue_empty-minus_one {s} v = (
  λ ne. elim (Bool-cases (any_ready s.mlq_ready_queue)) [
    | inl busy ↦ absurd (ne (rw busy))
    | inr idle ↦ λ j q at lt. any_ready_all s.mlq_ready_queue idle j q at
  ],
  λ idle.
      let none_ready : any_ready s.mlq_ready_queue ≡ false =
        any_ready_none s.mlq_ready_queue
          λ j q at. idle j q at (omega (arith, get_elem?-lt s.mlq_ready_queue j q at, v.queues)) in
      ground arith,
)
