-- ===== src/Sched/Valid.antt =====
-- The invariant of the scheduler, kept by `get_mlq_proc`, `put_proc` and `add_proc`.
use simple_32bit_os.Base.{
  ℕ, zero, suc, ◌+◌, ◌-◌, ◌<◌, ◌≡◌, sym, ◌∙◌, inl, inr, Option, some, List, arith, get_elem?,
  get_or, set, length, length-set, get_elem?-set, get_elem?-lt,
}
use simple_32bit_os.Queue.{Ptr, Queue}
use simple_32bit_os.Queue.Contents
use simple_32bit_os.Queue.Contents.{contents, remove_at, get_elem?-remove_at, enqueue-contents}
use simple_32bit_os.Process.{Heap}
use simple_32bit_os.Sched.{Sched, max_prio, slots_from, account, get_mlq_proc}
use simple_32bit_os.Sched.Get.{QueuesValid, Got, get_mlq_proc-Got}

-- Every process stands in the queue of its `prio`.
abbrev pub Placed : Heap → List Queue → Type 0
Placed heap qs =
    (j i : ℕ) (q : Queue) (p : Ptr)
    → get_elem? qs j ≡ some q
    → get_elem? (contents q) i ≡ some p
    → (heap p).prio ≡ j

pub record IsValid (s : Sched) : Type 0 where
  pub queues : length s.mlq_ready_queue ≡ max_prio
  pub arrays : QueuesValid s.mlq_ready_queue
  pub placed : Placed s.heap s.mlq_ready_queue
  pub running : Contents.IsValid s.running_list
  pub slots : s.slot ≡ slots_from max_prio 0
  pub prio_in : s.curr_prio < max_prio
  pub slot_in : s.curr_slot < max_prio - s.curr_prio

pub slots_from_at : (n i j m : ℕ) → i + j ≡ m → j < n → get_or (slots_from n i) j 0 ≡ max_prio - m
unfolding slots_from
slots_from_at zero i j m e h = absurd (omega arith)
slots_from_at (suc n) i zero m e h = omega arith
slots_from_at (suc n) i (suc j) m e h = slots_from_at n (suc i) j m (omega arith) (omega arith)

-- The bookkeeping keeps its counters in range and touches nothing else.
account_bounds :
    (prio : ℕ) (s : Sched)
    → prio < max_prio
    → s.slot ≡ slots_from max_prio 0
    → s.curr_prio < max_prio
    → let t = account prio s in (t.curr_prio < max_prio) × (t.curr_slot < max_prio - t.curr_prio)
unfolding account
account_bounds prio s h e c =
    let at : get_or s.slot prio 0 ≡ max_prio - prio =
      rw e (slots_from_at max_prio 0 prio prio (omega arith) h) in
    ground (arith, at)

pub account_frame :
    (prio : ℕ) (s : Sched)
    → let t = account prio s in
      (t.heap ≡ s.heap)
      × (t.mlq_ready_queue ≡ s.mlq_ready_queue)
      × (t.running_list ≡ s.running_list)
      × (t.slot ≡ s.slot)
unfolding account
account_frame prio s = ground arith

module _ (qs : List Queue) (i : ℕ) (q' : Queue) where
  pub QueuesValid-set : QueuesValid qs → Contents.IsValid q' → QueuesValid (set qs i q')
  QueuesValid-set v h j q at = elim (get_elem?-set qs i j q' q at) [
    | inl (e, new) ↦ rw new h
    | inr old ↦ v j q old
  ]

  pub Placed-set :
      (heap : Heap)
      → Placed heap qs
      → ((k : ℕ) (p : Ptr) → get_elem? (contents q') k ≡ some p → (heap p).prio ≡ i)
      → Placed heap (set qs i q')
  Placed-set heap v h j k q p at at' = elim (get_elem?-set qs i j q' q at) [
    | inl (e, new) ↦ h k p (rw (← new) at') ∙ sym e
    | inr old ↦ v j k q p old at'
  ]

pub Got-IsValid : {s : Sched} {out : Option Ptr × Sched} → IsValid s → Got s out → IsValid out.1
Got-IsValid {s} {out} v g = rw g.result (record {
  queues = rw frame.1 (length-set s.mlq_ready_queue g.prio g.queue' ∙ v.queues);
  arrays = rw frame.1 (QueuesValid-set s.mlq_ready_queue g.prio g.queue' v.arrays g.valid);
  placed =
      rw (frame.0, frame.1)
        (Placed-set s.mlq_ready_queue g.prio g.queue' s.heap v.placed λ k p at.
          let r =
            get_elem?-remove_at g.picks.index k (contents g.queue) p (rw g.picks.rest at at) in
          v.placed g.prio r.0 g.queue p g.at_prio r.1);
  running = rw frame.2 v.running;
  slots = rw frame.3 v.slots;
  prio_in = bounds.0;
  slot_in = bounds.1;
})
  where
    t : Sched
    t = record s { mlq_ready_queue = set s.mlq_ready_queue g.prio g.queue' }

    frame :
        let u = account g.prio t in
        (u.heap ≡ t.heap)
        × (u.mlq_ready_queue ≡ t.mlq_ready_queue)
        × (u.running_list ≡ t.running_list)
        × (u.slot ≡ t.slot)
    frame = account_frame g.prio t

    bounds :
        let u = account g.prio t in
        (u.curr_prio < max_prio) × (u.curr_slot < max_prio - u.curr_prio)
    bounds =
        account_bounds g.prio t
          (omega (arith, v.queues, get_elem?-lt s.mlq_ready_queue g.prio g.queue g.at_prio)) v.slots
          v.prio_in

-- `get_mlq_proc` keeps the scheduler's invariant: 140 valid queues, every process in the queue of
-- its `prio`, a valid running list, and the two counters in range.
pub get_mlq_proc-IsValid : {s : Sched} → IsValid s → IsValid (get_mlq_proc s).1
get_mlq_proc-IsValid {s} v = elim (get_mlq_proc-Got s v.arrays) [
  | inl g ↦ Got-IsValid v g
  | inr (empty, e) ↦ rw e (record {
    queues = v.queues;
    arrays = v.arrays;
    placed = v.placed;
    running = v.running;
    slots = v.slots;
    prio_in = omega arith;
    slot_in = omega arith;
  })
]
