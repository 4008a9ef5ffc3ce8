-- ===== src/Queue.antt =====
-- src/queue.c, include/queue.h: a bounded array of process pointers. A pointer is the address of a
-- `pcb_t`; `none` is NULL, also for the queue itself.
pub mod Contents
pub mod Order
mod Tests
use simple_32bit_os.Base.{
  ℕ, zero, suc, ◌-◌, Bool, true, Option, none, some, List, ltb, leb, ◌==◌, if◌then◌else◌, get_or,
  set,
}

abbrev pub Ptr : Type 0
Ptr = ℕ

abbrev pub max_queue_size : ℕ
max_queue_size = 10

-- `struct queue_t`. What stands at `size` and behind it in `proc` is left over.
pub record Queue : Type 0 where
  pub proc : List Ptr
  pub size : ℕ

unfoldable pub empty : Option Queue → Bool
empty none = true
empty (some q) = q.size == 0

unfoldable pub enqueue : Option Queue → Option Ptr → Option Queue
enqueue none p = none
enqueue (some q) none = some q
enqueue (some q) (some p) =
    if leb max_queue_size q.size
    then some q
    else some (record { proc = set q.proc q.size p; size = suc q.size })

-- The result, and `*idx` afterwards (`none` is the NULL pointer).
pub queue_traversal : Option Queue → Option ℕ → Option Ptr × Option ℕ
queue_traversal none idx = (none, idx)
queue_traversal (some q) none = (none, none)
queue_traversal (some q) (some i) =
    if q.size == 0
    then (none, some i)
    else if leb q.size i
    then (none, some i)
    else (some (get_or q.proc i 0), some (suc i))

-- The local variables `highest` and `highest_index`.
pub record Best : Type 0 where
  pub highest : Ptr
  pub highest_index : ℕ

-- `priority p` is `p->priority`.
module _ (priority : Ptr → ℕ) where
  -- The first loop of `dequeue`, at index `i` with the given number of rounds left.
  pub scan : ℕ → List Ptr → ℕ → Best → Best
  scan zero proc i b = b
  scan (suc n) proc i b = scan n proc (suc i) (
      if ltb (priority (get_or proc i 0)) (priority b.highest)
      then record { highest = get_or proc i 0; highest_index = i }
      else b)

-- The second loop: `proc[i] = proc[i + 1]`.
pub shift : ℕ → List Ptr → ℕ → List Ptr
shift zero proc i = proc
shift (suc n) proc i = shift n (set proc i (get_or proc (suc i) 0)) (suc i)

module _ (priority : Ptr → ℕ) where
  pub dequeue : Option Queue → Option Ptr × Option Queue
  dequeue none = (none, none)
  dequeue (some q) =
      if q.size == 0
      then (none, some q)
      else (let first : Best = record { highest = get_or q.proc 0 0; highest_index = 0 } in
          let b = scan priority (q.size - 1) q.proc 1 first in
          (
            some b.highest,
            some (record {
              proc = shift (q.size - 1 - b.highest_index) q.proc b.highest_index;
              size = q.size - 1;
            }),
          ))
