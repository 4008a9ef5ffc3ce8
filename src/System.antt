-- ===== src/System.antt =====
-- The state that the threads of src/os.c share: the scheduler, the memory of every process, the two
-- devices, and which control blocks have been given to `free`. A control block is reached through
-- its address, and `none` is a use of one that was freed, or of a pointer that nobody set.
pub mod Frame
pub mod Tests
use simple_32bit_os.Base.{
  ℕ, ◌-◌, Bool, true, false, Option, none, some, List, [], ◌∷◌, ◌==◌, ◌&&◌, ◌||◌, leb,
  if◌then◌else◌, get_elem?, take, ◌>>=◌,
}
use simple_32bit_os.Memphy.{Memphy}
use simple_32bit_os.Memory.{Mm, Caller}
use simple_32bit_os.Queue.{Ptr, Queue, enqueue, dequeue}
use simple_32bit_os.Process.{Pcb, QueueRef, store}
use simple_32bit_os.Sched.{Sched, set_mlq, set_running, priority_of}

pub record System : Type 0 where
  pub sched : Sched
  pub memory : Ptr → Mm
  pub mram : Memphy
  pub active_mswp : Memphy
  pub freed : Ptr → Bool

-- `*p`, and its assignment
unfoldable pub deref : System → Ptr → Option Pcb
deref s p = if s.freed p then none else some (s.sched.heap p)

unfoldable pub set_pcb : System → Ptr → Pcb → System
set_pcb s p c = record s { sched = record s.sched { heap = store s.sched.heap p c } }

-- The memory fields of a control block, and what a call of the memory library leaves of them.
unfoldable pub caller_of : System → Ptr → Option Caller
caller_of s p =
    if s.freed p
    then none
    else some (record { mm = s.memory p; mram = s.mram; active_mswp = s.active_mswp })

unfoldable pub with_caller : System → Ptr → Caller → System
with_caller s p c = record s {
  memory = λ x. if x == p then c.mm else s.memory x;
  mram = c.mram;
  active_mswp = c.active_mswp;
}

-- `free(p)`
unfoldable pub free_pcb : System → Ptr → System
free_pcb s p = record s { freed = λ x. if x == p then true else s.freed x }

-- The queue that a field of a control block points at: `mlq_ready_queue` points at the first of the
-- 140 queues.
unfoldable pub queue_at : System → Option QueueRef → Option Queue
queue_at s none = none
queue_at s (some QueueRef.ready) = some s.sched.ready_queue
queue_at s (some QueueRef.running) = some s.sched.running_list
queue_at s (some QueueRef.mlq) = get_elem? s.sched.mlq_ready_queue 0

-- What a call on that queue leaves of it.
pub set_queue : System → Option QueueRef → Option Queue → System
set_queue s none q = s
set_queue s (some QueueRef.ready) none = s
set_queue s (some QueueRef.ready) (some q) = record s { sched = record s.sched { ready_queue = q } }
set_queue s (some QueueRef.running) q = record s { sched = set_running s.sched q }
set_queue s (some QueueRef.mlq) q = record s { sched = set_mlq s.sched 0 q }

unfoldable pub any_freed : (Ptr → Bool) → List Ptr → Bool
any_freed freed [] = false
any_freed freed (p ∷ ps) = if freed p then true else any_freed freed ps

-- `dequeue` reads the `priority` of every process in the queue when there are two or more.
abbrev pub reads_freed : System → Queue → Bool
reads_freed s q = leb 2 q.size && any_freed s.freed (take q.size q.proc)

unfoldable pub take_from : System → Queue → Option (Option Ptr × Option Queue)
take_from s q = if reads_freed s q then none else some (dequeue (priority_of s.sched) (some q))
