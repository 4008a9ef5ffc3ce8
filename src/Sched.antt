-- ===== src/Sched.antt =====
-- src/sched.c, as built with MLQ_SCHED: 140 queues of ready processes, one for each `prio`.
-- Every function takes `queue_lock` for the time in which it touches a queue. `none` is an access
-- outside `mlq_ready_queue`.
pub mod Valid
pub mod Get
pub mod Policy
pub mod Put
pub mod Refine
pub mod Start
mod Tests
use simple_32bit_os.Base.{
  ℕ, zero, suc, ◌+◌, ◌-◌, ◌%◌, Bool, true, false, Option, none, some, List, [], ◌∷◌, ltb, ◌==◌, not,
  ◌&&◌, if◌then◌else◌, get_elem?, get_or, set, replicate, ◌>>=◌, minus_one,
}
use simple_32bit_os.Queue.{Ptr, Queue, empty, enqueue, dequeue}
use simple_32bit_os.Process.{Pcb, Heap, store, QueueRef}

abbrev pub max_prio : ℕ
max_prio = 140

-- The static variables of sched.c, with those of `get_mlq_proc`, and the heap of processes.
pub record Sched : Type 0 where
  pub heap : Heap
  pub ready_queue : Queue
  pub run_queue : Queue
  pub running_list : Queue
  pub mlq_ready_queue : List Queue
  pub slot : List ℕ
  pub curr_prio : ℕ
  pub curr_slot : ℕ

-- The loop of `queue_empty`: is one of the queues not empty?
pub any_ready : List Queue → Bool
any_ready [] = false
any_ready (q ∷ qs) = if not (empty (some q)) then true else any_ready qs

-- The `int` that it returns: -1 if a process is ready.
pub queue_empty : Sched → ℕ
unfolding any_ready
queue_empty s =
    if any_ready s.mlq_ready_queue
    then minus_one
    else if empty (some s.ready_queue) && empty (some s.run_queue)
    then 1
    else 0

reset : Queue → Queue
reset q = record q { size = 0 }

-- The loop of `init_scheduler`, from index `i` on.
reset_all : List Queue → List Queue
unfolding reset
reset_all [] = []
reset_all (q ∷ qs) = reset q ∷ reset_all qs

pub slots_from : ℕ → ℕ → List ℕ
slots_from zero i = []
slots_from (suc n) i = (max_prio - i) ∷ slots_from n (suc i)

pub init_scheduler : Sched → Sched
unfolding reset reset_all
init_scheduler s = record s {
  mlq_ready_queue = reset_all s.mlq_ready_queue;
  slot = slots_from max_prio 0;
  ready_queue = reset s.ready_queue;
  run_queue = reset s.run_queue;
}

-- The bookkeeping of `get_mlq_proc` when it has taken a process from queue `prio`. `init_scheduler` sets
-- no entry of `slot` to 0, and nothing changes them, so that the remainder is defined.
pub account : ℕ → Sched → Sched
account prio s =
    if s.curr_prio == prio
    then (let next = (s.curr_slot + 1) % get_or s.slot prio 0 in
        if next == 0
        then record s { curr_prio = (s.curr_prio + 1) % max_prio; curr_slot = 0 }
        else record s { curr_slot = next })
    else record s { curr_prio = prio; curr_slot = 0 }

-- `mlq_ready_queue[prio] = q`, for the queue that a call on `&mlq_ready_queue[prio]` leaves.
unfoldable pub set_mlq : Sched → ℕ → Option Queue → Sched
set_mlq s prio none = s
set_mlq s prio (some q) = record s { mlq_ready_queue = set s.mlq_ready_queue prio q }

unfoldable pub priority_of : Sched → Ptr → ℕ
priority_of s p = (s.heap p).priority

-- What follows `dequeue` in the loop; `next` is the rest of the loop.
pub taken :
    ℕ → Sched → Option Ptr × Option Queue → (Sched → Option Ptr × Sched) → Option Ptr × Sched
unfolding account set_mlq
taken prio s (none, q) next = next (set_mlq s prio q)
taken prio s (some p, q) next = (some p, account prio (set_mlq s prio q))

-- The loop of `get_mlq_proc`, with the given number of rounds left, and what follows it if it finds
-- nothing.
pub find_from : ℕ → ℕ → Sched → Option Ptr × Sched
unfolding taken
find_from zero prio s = (none, record s { curr_prio = 0; curr_slot = 0 })
find_from (suc n) prio s = elim (get_elem? s.mlq_ready_queue prio) [
  | none ↦ find_from n (suc prio) s
  | some q ↦
      let rest = find_from n (suc prio) s in
      if empty (some q)
      then rest
      else taken prio s (dequeue (priority_of s) (some q)) (find_from n (suc prio))
]

pub get_mlq_proc : Sched → Option Ptr × Sched
unfolding find_from
get_mlq_proc s = find_from max_prio 0 s

pub get_proc : Sched → Option Ptr × Sched
unfolding get_mlq_proc
get_proc s = get_mlq_proc s

-- `put_mlq_proc` and `add_mlq_proc` have the same body.
pub put_mlq_proc : Sched → Ptr → Option Sched
unfolding set_mlq
put_mlq_proc s p = do
  q ← get_elem? s.mlq_ready_queue (s.heap p).prio
  some (set_mlq s (s.heap p).prio (enqueue (some q) (some p)))

pub add_mlq_proc : Sched → Ptr → Option Sched
unfolding set_mlq
add_mlq_proc s p = do
  q ← get_elem? s.mlq_ready_queue (s.heap p).prio
  some (set_mlq s (s.heap p).prio (enqueue (some q) (some p)))

unfoldable pub set_running : Sched → Option Queue → Sched
set_running s none = s
set_running s (some q) = record s { running_list = q }

-- The first part of `put_proc` and `add_proc`: the three pointers, and the running list.
pub enlist : Sched → Ptr → Sched
unfolding set_running
enlist s p =
    let c = record (s.heap p) {
      ready_queue = some QueueRef.ready;
      mlq_ready_queue = some QueueRef.mlq;
      running_list = some QueueRef.running;
    } in
    set_running (record s { heap = store s.heap p c }) (enqueue (some s.running_list) (some p))

pub put_proc : Sched → Ptr → Option Sched
unfolding enlist put_mlq_proc
put_proc s p = put_mlq_proc (enlist s p) p

pub add_proc : Sched → Ptr → Option Sched
unfolding enlist add_mlq_proc
add_proc s p = add_mlq_proc (enlist s p) p
