-- ===== src/Sched/Policy.antt =====
-- What the counters of `get_mlq_proc` decide, what a process that is added gets, and the running
-- list.
use simple_32bit_os.Base.{
  ℕ, zero, suc, ◌<◌, ◌≤◌, length-take, ◌≡◌, refl, ap, sym, ◌∙◌, inl, inr, Option, none, some, List,
  ◌∷◌, ◌++◌, [], arith, leb, take, Bool-cases, Option-cases, get_elem?, length, get_elem?-set,
  get_elem?-lt, get_elem?-set_self, false, get_elem?-single,
}
use simple_32bit_os.Queue.{Ptr, Queue, enqueue, max_queue_size, empty, dequeue}
use simple_32bit_os.Queue.Contents.{contents, enqueue-contents}
use simple_32bit_os.Sched.{
  Sched, max_prio, put_mlq_proc, put_proc, add_proc, enlist, set_mlq, find_from, get_mlq_proc,
  taken, account, priority_of, get_proc,
}
use simple_32bit_os.Sched.Get.{EmptyBelow, Got, get_mlq_proc-Got}
use simple_32bit_os.Sched.Valid.{IsValid}
use simple_32bit_os.Sched.Put.{
  prio_of, Enqueued, put_proc-Enqueued, enlist-running, add_proc-eq-put_proc,
}

-- The part of a result that is not the counters.
abbrev pub choice : Option Ptr × Sched → Option Ptr × List Queue
choice out = (out.0, out.1.mlq_ready_queue)

abbrev pub with_counters : Sched → ℕ → ℕ → Sched
with_counters s prio slot = record s { curr_prio = prio; curr_slot = slot }

account-queues : (prio : ℕ) (s : Sched) → (account prio s).mlq_ready_queue ≡ s.mlq_ready_queue
unfolding account
account-queues prio s = ground arith

account_same :
    (p : Ptr) (prio : ℕ) (s t : Sched)
    → s.mlq_ready_queue ≡ t.mlq_ready_queue
    → choice (some p, account prio s) ≡ choice (some p, account prio t)
account_same p prio s t e =
    ap (λ qs. (some p, qs)) {x = (account prio s).mlq_ready_queue}
      (account-queues prio s ∙ e ∙ sym (account-queues prio t))

taken_counters :
    (prio a b : ℕ) (s : Sched) (r : Option Ptr × Option Queue) (f : Sched → Option Ptr × Sched)
    → ((t : Sched) → choice (f (with_counters t a b)) ≡ choice (f t))
    → choice (taken prio (with_counters s a b) r f) ≡ choice (taken prio s r f)
unfolding taken set_mlq
taken_counters prio a b s (none, none) f h = h s
taken_counters prio a b s (none, some q) f h = h (set_mlq s prio (some q))
taken_counters prio a b s (some p, none) f h = account_same p prio (with_counters s a b) s refl
taken_counters prio a b s (some p, some q) f h =
    account_same p prio (set_mlq (with_counters s a b) prio (some q)) (set_mlq s prio (some q)) refl

find_from_counters :
    (n i a b : ℕ) (s : Sched)
    → choice (find_from n i (with_counters s a b)) ≡ choice (find_from n i s)
unfolding find_from priority_of
find_from_counters zero i a b s = refl
find_from_counters (suc n) i a b s = elim (Option-cases (get_elem? s.mlq_ready_queue i)) [
  | inl at ↦ rw (at, find_from) (find_from_counters n (suc i) a b s)
  | inr (q, at) ↦ elim (Bool-cases (empty (some q))) [
    | inl is_empty ↦ rw (at, find_from, is_empty) (find_from_counters n (suc i) a b s)
    | inr busy ↦
        rw (at, find_from, busy)
          (taken_counters i a b s (dequeue (priority_of s) (some q)) (find_from n (suc i))
            (find_from_counters n (suc i) a b))
  ]
]

-- The counters `curr_prio` and `curr_slot`, with which the slots of the multilevel policy are
-- counted, have no influence on which process `get_mlq_proc` returns or on what it leaves queued.
pub get_mlq_proc_counters :
    (s : Sched) (a b : ℕ) → choice (get_mlq_proc (with_counters s a b)) ≡ choice (get_mlq_proc s)
unfolding get_mlq_proc
get_mlq_proc_counters s a b = find_from_counters max_prio 0 a b s

contents-nil : (q : Queue) → q.size ≡ 0 → contents q ≡ []
contents-nil q e = ap (λ n. take n q.proc) e

-- What `add_proc` leaves in the queue of `p`, where nothing was ready.
added-single :
    {s t : Sched} {p : Ptr}
    → EmptyBelow s max_prio
    → prio_of s p < max_prio
    → (put : Enqueued s p t) → contents put.queue' ≡ p ∷ []
added-single {s} {p} empty h put =
    let size : put.queue.size ≡ 0 = empty (prio_of s p) put.queue put.at_prio h in
    let room : leb max_queue_size put.queue.size ≡ false = ground arith in
    put.behind ∙ rw room (ap (λ xs. xs ++ (p ∷ [])) (contents-nil put.queue size))

Got-single :
    {s t : Sched} {p : Ptr} {out : Option Ptr × Sched}
    → EmptyBelow s max_prio
    → prio_of s p < max_prio
    → length s.mlq_ready_queue ≡ max_prio
    → (put : Enqueued s p t) → Got t out
    → out.0 ≡ some p
Got-single {s} {t} {p} empty h len put g =
    elim (get_elem?-set s.mlq_ready_queue (prio_of s p) g.prio put.queue' g.queue
      (rw put.others at g.at_prio)) [
        | inl (_, new) ↦
            let found : get_elem? (p ∷ []) g.picks.index ≡ some g.proc =
              rw (← added-single empty h put, ← new) g.picks.found in
            ap (λ o. o.0) g.result ∙ ap some (get_elem?-single p g.proc g.picks.index found)
        | inr old ↦ absurd (
            omega (
              arith,
              empty g.prio g.queue old
                  (omega (arith, get_elem?-lt s.mlq_ready_queue g.prio g.queue old)),
              g.one_less,
            ))
      ]

-- Every queue has at most the process that was put.
pub Enqueued-single :
    {s t : Sched} {p : Ptr}
    → IsValid s
    → EmptyBelow s max_prio
    → prio_of s p < max_prio
    → Enqueued s p t
    → (j : ℕ) (q : Queue) → get_elem? t.mlq_ready_queue j ≡ some q
    → q.size ≤ 1
Enqueued-single {s} {t} {p} v empty h put j q at =
    elim (get_elem?-set s.mlq_ready_queue (prio_of s p) j put.queue' q (rw put.others at at)) [
      | inl (_, new) ↦
          let one : length (contents put.queue') ≡ 1 = ap length (added-single empty h put) in
          let all : length (contents put.queue') ≡ put.queue'.size =
            length-take put.queue'.size put.queue'.proc
              (omega (arith, put.valid.slots, put.valid.bounded)) in
          rw new (omega (arith, one, all))
      | inr old ↦
          let none_there =
            empty j q old (omega (arith, get_elem?-lt s.mlq_ready_queue j q old, v.queues)) in
          omega (arith, none_there)
    ]

-- The process that was put is the next one.
pub Enqueued-next :
    {s t : Sched} {p : Ptr}
    → IsValid s
    → EmptyBelow s max_prio
    → prio_of s p < max_prio
    → IsValid t
    → Enqueued s p t
    → (get_proc t).0 ≡ some p
unfolding get_proc
Enqueued-next {s} {t} {p} v empty h valid put = elim (get_mlq_proc-Got t valid.arrays) [
  | inl g ↦ Got-single empty h v.queues put g
  | inr (no_process, _) ↦
      let at : get_elem? t.mlq_ready_queue (prio_of s p) ≡ some put.queue' =
        rw put.others (
          get_elem?-set_self s.mlq_ready_queue (prio_of s p) put.queue'
            (omega (arith, v.queues))) in
      let gone = contents-nil put.queue' (no_process (prio_of s p) put.queue' at h) in
      absurd (cc (gone, added-single empty h put))
]

-- In a valid scheduler, a process with a `prio` below 140 that is added while no process is ready
-- is the next one that `get_mlq_proc` returns.
get_mlq_proc-add_proc :
    {s : Sched} (p : Ptr)
    → IsValid s
    → EmptyBelow s max_prio
    → prio_of s p < max_prio
    → (t : Sched) × (add_proc s p ≡ some t) × ((get_mlq_proc t).0 ≡ some p)
unfolding get_proc
get_mlq_proc-add_proc {s} p v empty h =
    let (t, e, valid, put) = put_proc-Enqueued p v h in
    (t, add_proc-eq-put_proc s p ∙ e, Enqueued-next v empty h valid put)

set_mlq_frame :
    (s : Sched) (i : ℕ) (q : Option Queue) → (set_mlq s i q).running_list ≡ s.running_list
unfolding set_mlq
set_mlq_frame s i none = refl
set_mlq_frame s i (some q) = refl

put_mlq_proc_frame :
    (s t : Sched) (p : Ptr) → put_mlq_proc s p ≡ some t → t.running_list ≡ s.running_list
unfolding put_mlq_proc
put_mlq_proc_frame s t p e = elim (Option-cases (get_elem? s.mlq_ready_queue (prio_of s p))) [
  | inl at ↦ cc (rw at at e)
  | inr (q, at) ↦
      let made : some (set_mlq s (prio_of s p) (enqueue (some q) (some p))) ≡ some t = rw at at e in
      cc (made, set_mlq_frame s (prio_of s p) (enqueue (some q) (some p)))
]

-- In a valid scheduler and for a `prio` below 140, `put_proc` enters the process in the running
-- list each time that it is called, also when it is there already, as long as there is room.
pub put_proc-running_list :
    {s : Sched} (p : Ptr)
    → IsValid s
    → prio_of s p < max_prio
    → s.running_list.size < max_queue_size
    → (t : Sched) × (put_proc s p ≡ some t)
      × (contents t.running_list ≡ contents s.running_list ++ (p ∷ []))
unfolding put_proc
put_proc-running_list {s} p v h room =
    let (t, e, _, _) = put_proc-Enqueued p v h in
    let (q', e', _, behind) = enqueue-contents p v.running in
    let not_full : leb max_queue_size s.running_list.size ≡ false = ground arith in
    let same : t.running_list ≡ q' =
      put_mlq_proc_frame (enlist s p) t p e ∙ enlist-running s p q' e' in
    (t, e, rw same (rw not_full at behind))
