-- ===== src/Sched/Get.antt =====
-- `get_mlq_proc` is strict: it serves the lowest `prio` that has a process.
use simple_32bit_os.Base.{
  ◌∙◌, length, get_elem?-lt, ℕ, zero, suc, ◌+◌, ◌<◌, ◌≡◌, ◌≢◌, refl, ◌⊎◌, inl, inr, Option, none,
  some, List, arith, ◌==◌, Bool-cases, Option-cases, ==_iff, get_elem?, set,
}
use simple_32bit_os.Queue.{Ptr, Queue, empty, dequeue}
use simple_32bit_os.Queue.Contents
use simple_32bit_os.Queue.Contents.{contents}
use simple_32bit_os.Queue.Order.{Picks, dequeue-Picks}
use simple_32bit_os.Sched.{
  Sched, max_prio, account, set_mlq, priority_of, taken, find_from, get_mlq_proc, get_proc,
}

-- Every queue of a `prio` below `i` is empty.
abbrev pub EmptyBelow : Sched → ℕ → Type 0
EmptyBelow s i = (j : ℕ) (q : Queue) → get_elem? s.mlq_ready_queue j ≡ some q → j < i → q.size ≡ 0

abbrev pub QueuesValid : List Queue → Type 0
QueuesValid qs = (j : ℕ) (q : Queue) → get_elem? qs j ≡ some q → Contents.IsValid q

-- `out` is what `get_mlq_proc` returns when it takes a process: the pick of the first queue that is
-- not empty, which keeps the rest; the other queues are as before.
pub record Got (s : Sched) (out : Option Ptr × Sched) : Type 0 where
  pub prio : ℕ
  pub queue : Queue
  pub queue' : Queue
  pub proc : Ptr
  pub at_prio : get_elem? s.mlq_ready_queue prio ≡ some queue
  pub first : EmptyBelow s prio
  pub picks : Picks (priority_of s) (contents queue) proc (contents queue')
  pub valid : Contents.IsValid queue'
  pub one_less : queue.size ≡ suc queue'.size
  pub result :
      out
      ≡ (some proc, account prio (record s { mlq_ready_queue = set s.mlq_ready_queue prio queue' }))

abbrev pub none_found : Sched → Option Ptr × Sched
none_found s = (none, record s { curr_prio = 0; curr_slot = 0 })

module _ (s : Sched) where
  EmptyBelow-suc :
      (i : ℕ)
      → EmptyBelow s i
      → ((q : Queue) → get_elem? s.mlq_ready_queue i ≡ some q → q.size ≡ 0)
      → EmptyBelow s (suc i)
  EmptyBelow-suc i h e j q at lt = elim (Bool-cases (j == i)) [
    | inl same ↦ e q (rw (← (==_iff j i).0 same) at)
    | inr other ↦ h j q at (ground arith)
  ]

  -- One round of the loop at a queue that is not there or is empty.
  find_from-skip :
      (n i : ℕ)
      → ((q : Queue) → get_elem? s.mlq_ready_queue i ≡ some q → q.size ≡ 0)
      → find_from (suc n) i s ≡ find_from n (suc i) s
  unfolding find_from empty
  find_from-skip n i e = elim (Option-cases (get_elem? s.mlq_ready_queue i)) [
    | inl none_at ↦ rw (none_at, find_from)
    | inr (q, at) ↦ rw (at, find_from, e q at)
  ]

  -- One round at a queue that gives up a process.
  find_from-take :
      (n i : ℕ) (q q' : Queue) (x : Ptr)
      → get_elem? s.mlq_ready_queue i ≡ some q
      → q.size ≢ 0
      → dequeue (priority_of s) (some q) ≡ (some x, some q')
      → find_from (suc n) i s
        ≡ (some x, account i (record s { mlq_ready_queue = set s.mlq_ready_queue i q' }))
  unfolding find_from empty taken set_mlq
  find_from-take n i q q' x at ne e = elim (Bool-cases (q.size == 0)) [
    | inl is_empty ↦ absurd (ne ((==_iff q.size 0).0 is_empty))
    | inr not ↦ rw (at, find_from, not, e)
  ]

  -- The loop from `i` on, which ends at `m`.
  abbrev Served : ℕ → Option Ptr × Sched → Type 0
  Served m out = Got s out ⊎ (EmptyBelow s m × (out ≡ none_found s))

  find_from-take-Got :
      (n i : ℕ) (q : Queue)
      → get_elem? s.mlq_ready_queue i ≡ some q
      → q.size ≢ 0
      → Contents.IsValid q
      → EmptyBelow s i
      → Got s (find_from (suc n) i s)
  find_from-take-Got n i q at ne v h =
      let (x, q', e, picks, v', less) = dequeue-Picks (priority_of s) v ne in
      record {
        prio = i;
        queue = q;
        queue' = q';
        proc = x;
        at_prio = at;
        first = h;
        picks = picks;
        valid = v';
        one_less = less;
        result = find_from-take n i q q' x at ne e;
      }

  find_from-Served :
      (n i m : ℕ)
      → i + n ≡ m
      → QueuesValid s.mlq_ready_queue
      → EmptyBelow s i
      → Served m (find_from n i s)
  find_from-Served zero i m e v h =
      inr (λ j q at lt. h j q at (omega arith), unfold find_from in refl)
  find_from-Served (suc n) i m e v h =
      go (find_from-Served n (suc i) m (omega arith) v) (get_elem? s.mlq_ready_queue i) refl
    where
      skip :
          (EmptyBelow s (suc i) → Served m (find_from n (suc i) s))
          → ((q : Queue) → get_elem? s.mlq_ready_queue i ≡ some q → q.size ≡ 0)
          → Served m (find_from (suc n) i s)
      skip rest empty_at = rw (find_from-skip n i empty_at) (rest (EmptyBelow-suc i h empty_at))

      go :
          (EmptyBelow s (suc i) → Served m (find_from n (suc i) s))
          → (o : Option Queue) → get_elem? s.mlq_ready_queue i ≡ o
          → Served m (find_from (suc n) i s)
      go rest none at = skip rest (λ q at'. cc)
      go rest (some q) at = elim (Bool-cases (q.size == 0)) [
        | inl is_empty ↦ skip rest (λ q' at'. ground arith)
        | inr not ↦ inl (find_from-take-Got n i q at (ground arith) (v i q at) h)
      ]

-- When every queue is valid, `get_mlq_proc` serves the lowest `prio` that has a process, takes the
-- first process of the lowest `priority` number out of that queue and does its bookkeeping; or
-- every queue is empty and it returns NULL and resets its two counters.
pub get_mlq_proc-Got :
    (s : Sched)
    → QueuesValid s.mlq_ready_queue
    → Got s (get_mlq_proc s) ⊎ (EmptyBelow s max_prio × (get_mlq_proc s ≡ none_found s))
unfolding get_mlq_proc
get_mlq_proc-Got s v =
    find_from-Served s max_prio 0 max_prio refl v (λ j q at lt. absurd (omega arith))

pub get_proc-eq-get_mlq_proc : (s : Sched) → get_proc s ≡ get_mlq_proc s
unfolding get_proc
get_proc-eq-get_mlq_proc s = refl

-- When no process is ready, `get_proc` finds none.
pub get_proc-none_found :
    (s : Sched)
    → QueuesValid s.mlq_ready_queue
    → length s.mlq_ready_queue ≡ max_prio
    → EmptyBelow s max_prio
    → get_proc s ≡ none_found s
get_proc-none_found s v len idle = elim (get_mlq_proc-Got s v) [
  | inl g ↦ absurd (
      omega (
        arith,
        idle g.prio g.queue g.at_prio
            (omega (arith, get_elem?-lt s.mlq_ready_queue g.prio g.queue g.at_prio, len)),
        g.one_less,
      ))
  | inr (e, found) ↦ get_proc-eq-get_mlq_proc s ∙ found
]
