-- ===== src/Sched/Put.antt =====
-- `put_proc` and `add_proc`: the process goes behind the others of its `prio`.
use simple_32bit_os.Base.{
  ℕ, ◌≤◌, ◌<◌, ◌≡◌, refl, ap, ap₂, get_elem?-none, sym, ◌∙◌, inl, inr, none, some, List, ◌∷◌, ◌++◌,
  [], arith, leb, if◌then◌else◌, get_elem?, get_or, set, ==_iff, length, length-set,
  get_elem?-append, get_elem?-eq-get_or, Bool, true, false,
}
use simple_32bit_os.Queue.{Ptr, Queue, enqueue, max_queue_size}
use simple_32bit_os.Queue.Contents
use simple_32bit_os.Queue.Contents.{contents, enqueue-contents}
use simple_32bit_os.Process.{Heap}
use simple_32bit_os.Sched.{
  Sched, max_prio, put_mlq_proc, add_mlq_proc, put_proc, add_proc, enlist, set_running, set_mlq,
  priority_of,
}
use simple_32bit_os.Sched.Valid.{IsValid, QueuesValid-set, Placed-set}

abbrev pub prio_of : Sched → Ptr → ℕ
prio_of s p = (s.heap p).prio

-- What `enlist` leaves alone.
enlist_frame :
    (s : Sched) (p x : Ptr)
    → let t = enlist s p in
      (t.mlq_ready_queue ≡ s.mlq_ready_queue)
      × (t.slot ≡ s.slot)
      × (t.curr_prio ≡ s.curr_prio)
      × (t.curr_slot ≡ s.curr_slot)
      × (prio_of t x ≡ prio_of s x)
unfolding enlist set_running enqueue
enlist_frame s p x = ground (arith, ==_iff x p)

enlist_priority : (s : Sched) (p x : Ptr) → priority_of (enlist s p) x ≡ priority_of s x
unfolding enlist set_running enqueue priority_of
enlist_priority s p x = ground (arith, ==_iff x p)

pub enlist-running :
    (s : Sched) (p : Ptr) (q' : Queue)
    → enqueue (some s.running_list) (some p) ≡ some q'
    → (enlist s p).running_list ≡ q'
unfolding enlist set_running
enlist-running s p q' e = rw e

-- The first half of `put_proc` and `add_proc` keeps the invariant.
pub enlist-IsValid : {s : Sched} (p : Ptr) → IsValid s → IsValid (enlist s p)
enlist-IsValid {s} p v =
    let (q', e, valid, _) = enqueue-contents {q = s.running_list} p v.running in
    let (same_queues, same_slot, same_prio, same_count, _) = enlist_frame s p p in
    record {
      queues = rw same_queues v.queues;
      arrays = rw same_queues v.arrays;
      placed = λ j i q x at at'.
          let (_, _, _, _, same) = enlist_frame s p x in
          same ∙ v.placed j i q x (rw same_queues at at) at';
      running = rw (enlist-running s p q' e) valid;
      slots = same_slot ∙ v.slots;
      prio_in = rw same_prio v.prio_in;
      slot_in = rw (same_prio, same_count) v.slot_in;
    }

-- `t` is `s` with `p` behind the others of its `prio`, or dropped there if that queue is full.
pub record Enqueued (s : Sched) (p : Ptr) (t : Sched) : Type 0 where
  pub queue : Queue
  pub queue' : Queue
  pub at_prio : get_elem? s.mlq_ready_queue (prio_of s p) ≡ some queue
  pub others : t.mlq_ready_queue ≡ set s.mlq_ready_queue (prio_of s p) queue'
  pub behind :
      contents queue'
      ≡ (if leb max_queue_size queue.size then contents queue else contents queue ++ (p ∷ []))
  pub valid : Contents.IsValid queue'
  pub same_prio : (x : Ptr) → prio_of t x ≡ prio_of s x
  pub same_priority : (x : Ptr) → priority_of t x ≡ priority_of s x

behind-placed :
    (heap : Heap) (p : Ptr) (full : Bool) (xs : List Ptr) {i : ℕ} {ys : List Ptr}
    → (heap p).prio ≡ i
    → ((k : ℕ) (x : Ptr) → get_elem? xs k ≡ some x → (heap x).prio ≡ i)
    → ys ≡ (if full then xs else xs ++ (p ∷ []))
    → (k : ℕ) (x : Ptr) → get_elem? ys k ≡ some x
    → (heap x).prio ≡ i
behind-placed heap p true xs e h same k x at = h k x (rw same at at)
behind-placed heap p false xs e h same k x at = elim (get_elem?-append xs p k x (rw same at at)) [
  | inl new ↦ rw new e
  | inr old ↦ h k x old
]

put_mlq_proc-Enqueued :
    {s : Sched} (p : Ptr)
    → IsValid s
    → prio_of s p < max_prio
    → (t : Sched) × (put_mlq_proc s p ≡ some t) × IsValid t × Enqueued s p t
unfolding put_mlq_proc set_mlq priority_of
put_mlq_proc-Enqueued {s} p v h =
    let q = get_or s.mlq_ready_queue (prio_of s p) s.running_list in
    let at : get_elem? s.mlq_ready_queue (prio_of s p) ≡ some q =
      get_elem?-eq-get_or s.mlq_ready_queue (prio_of s p) s.running_list
        (omega (arith, v.queues)) in
    let (q', e, valid, behind) = enqueue-contents p (v.arrays (prio_of s p) q at) in
    (
      record s { mlq_ready_queue = set s.mlq_ready_queue (prio_of s p) q' },
      rw (at, e),
      record {
        queues = length-set s.mlq_ready_queue (prio_of s p) q' ∙ v.queues;
        arrays = QueuesValid-set s.mlq_ready_queue (prio_of s p) q' v.arrays valid;
        placed = Placed-set s.mlq_ready_queue (prio_of s p) q' s.heap v.placed (
            behind-placed s.heap p (leb max_queue_size q.size) (contents q) refl
              (λ k x. v.placed (prio_of s p) k q x at) behind);
        running = v.running;
        slots = v.slots;
        prio_in = v.prio_in;
        slot_in = v.slot_in;
      },
      record {
        queue = q;
        queue' = q';
        at_prio = at;
        others = refl;
        behind = behind;
        valid = valid;
        same_prio = λ x. refl;
        same_priority = λ x. refl;
      },
    )

Enqueued-enlist : {s : Sched} {p : Ptr} {t : Sched} → Enqueued (enlist s p) p t → Enqueued s p t
Enqueued-enlist {s} {p} put = record {
  queue = put.queue;
  queue' = put.queue';
  at_prio = ap₂ (λ qs i. get_elem? qs i) (sym frame.0) (sym frame.4) ∙ put.at_prio;
  others = put.others ∙ ap₂ (λ qs i. set qs i put.queue') frame.0 frame.4;
  behind = put.behind;
  valid = put.valid;
  same_prio = λ x. put.same_prio x ∙ (enlist_frame s p x).4;
  same_priority = λ x. put.same_priority x ∙ enlist_priority s p x;
}
  where
    frame :
        let t = enlist s p in
        (t.mlq_ready_queue ≡ s.mlq_ready_queue)
        × (t.slot ≡ s.slot)
        × (t.curr_prio ≡ s.curr_prio)
        × (t.curr_slot ≡ s.curr_slot)
        × (prio_of t p ≡ prio_of s p)
    frame = enlist_frame s p p

-- In a valid scheduler and for a `prio` below 140, `put_proc`, which a CPU calls when the time slot
-- of `p` is over, keeps the invariant and puts `p` behind the processes of its `prio`, or drops it
-- if that queue is full.
pub put_proc-Enqueued :
    {s : Sched} (p : Ptr)
    → IsValid s
    → prio_of s p < max_prio
    → (t : Sched) × (put_proc s p ≡ some t) × IsValid t × Enqueued s p t
unfolding put_proc
put_proc-Enqueued {s} p v h =
    let same : prio_of (enlist s p) p ≡ prio_of s p = (enlist_frame s p p).4 in
    let (t, e, valid, put) =
      put_mlq_proc-Enqueued {s = enlist s p} p (enlist-IsValid p v) (omega arith) in
    (t, e, valid, Enqueued-enlist put)

-- `add_proc`, which the loader calls, does to the scheduler what `put_proc` does.
pub add_proc-eq-put_proc : (s : Sched) (p : Ptr) → add_proc s p ≡ put_proc s p
unfolding add_proc put_proc put_mlq_proc add_mlq_proc
add_proc-eq-put_proc s p = refl

-- In a valid scheduler `put_proc` of a process with a `prio` of 140 or more, which the
-- configuration file may give, is an access outside the array.
pub put_proc-fault :
    {s : Sched} (p : Ptr) → IsValid s → max_prio ≤ prio_of s p → put_proc s p ≡ none
unfolding put_proc put_mlq_proc
put_proc-fault {s} p v h =
    let (same_queues, _, _, _, same) = enlist_frame s p p in
    let out : get_elem? (enlist s p).mlq_ready_queue (prio_of (enlist s p) p) ≡ none =
      get_elem?-none (enlist s p).mlq_ready_queue (prio_of (enlist s p) p)
        (omega (arith, ap length same_queues, v.queues)) in
    rw out
