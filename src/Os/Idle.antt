-- ===== src/Os/Idle.antt =====
-- A CPU for which no process is ready.
use simple_32bit_os.Base.{
  ◌>>=◌, Option, replicate, ℕ, suc, ◌≡◌, ◌≤◌, refl, Bool, true, false, none, some, List, [], ◌∷◌,
  arith, length, get_elem?, get_elem?-lt, ◌==◌, ==_self, if◌then◌else◌,
}
use simple_32bit_os.Memory.{Region}
use simple_32bit_os.Queue.{Ptr, Queue, empty}
use simple_32bit_os.Queue.Contents.{contents}
use simple_32bit_os.Process.{QueueRef}
use simple_32bit_os.Sched.{max_prio}
use simple_32bit_os.Sched.Get.{EmptyBelow, get_proc-none_found}
use simple_32bit_os.Sched.Valid
use simple_32bit_os.System.{System, deref, free_pcb, queue_at}
use simple_32bit_os.Killall.{kill_in, end_program}
use simple_32bit_os.Killall.Freed.{kill_in-HasFreed}
use simple_32bit_os.Os.{
  first_ready, get_from, get_proc, Cpu, Action, Turn, is_null, load_new, finish, check, recheck,
  cpu_turn,
}

-- The scheduler is valid, and no process is ready.
pub record IsIdle (s : System) : Type 0 where
  pub valid : Valid.IsValid s.sched
  pub idle : EmptyBelow s.sched max_prio

-- The system after `get_proc` has found nothing: its two counters are reset.
abbrev pub settled : System → System
settled s = record s { sched = record s.sched { curr_prio = 0; curr_slot = 0 } }

first_ready-none :
    (qs : List Queue)
    → ((j : ℕ) (q : Queue) → get_elem? qs j ≡ some q → q.size ≡ 0)
    → first_ready qs ≡ none
unfolding first_ready empty
first_ready-none [] h = refl
first_ready-none (q ∷ qs) h = rw (h 0 q refl) (first_ready-none qs λ j q at. h (suc j) q at)

pub get_proc-idle : (s : System) → IsIdle s → get_proc s ≡ some (none, settled s)
unfolding get_proc get_from
get_proc-idle s i =
    let none_ready = first_ready-none s.sched.mlq_ready_queue λ j q at.
      i.idle j q at (omega (arith, get_elem?-lt s.sched.mlq_ready_queue j q at, i.valid.queues)) in
    rw (none_ready, get_proc-none_found s.sched i.valid.arrays i.valid.queues i.idle) refl

pub settled-IsIdle : (s : System) → IsIdle s → IsIdle (settled s)
settled-IsIdle s i = record {
  valid = record {
    queues = i.valid.queues;
    arrays = i.valid.arrays;
    placed = i.valid.placed;
    running = i.valid.running;
    slots = i.valid.slots;
    prio_in = omega arith;
    slot_in = omega arith;
  };
  idle = i.idle;
}

-- A process in a running list of two or more entries.
pub record IsEntered (s : System) (p : Ptr) : Type 0 where
  pub many : 2 ≤ s.sched.running_list.size
  pub index : ℕ
  pub holds : get_elem? (contents s.sched.running_list) index ≡ some p

-- Turns of one CPU, with the value of `done` in each, and no turn of another thread in between: how
-- they end, and what they leave.
pub record Ran : Type 0 where
  pub actions : List Action
  pub cpu : Cpu
  pub system : System

abbrev pub cpu_turns :
    (junk : Region) → (time_slot : ℕ) → (dones : List Bool) → System → Cpu → Option Ran
cpu_turns junk time_slot [] s cpu = some (record { actions = []; cpu = cpu; system = s })
cpu_turns junk time_slot (done ∷ dones) s cpu = do
  t ← cpu_turn junk time_slot done s cpu
  r ← cpu_turns junk time_slot dones t.system t.cpu
  some (record r { actions = t.action ∷ r.actions })

abbrev pub without_process : (time_left : ℕ) → Cpu
without_process time_left = record { time_left = time_left; proc = none }

cpu_turn-idle :
    (junk : Region) (time_slot : ℕ) (done : Bool) (s : System) (time_left : ℕ)
    → IsIdle s
    → cpu_turn junk time_slot done s (without_process time_left)
      ≡ some (record {
        action = Action.next_slot;
        cpu = without_process time_left;
        system = settled s;
      })
unfolding cpu_turn check load_new is_null
cpu_turn-idle junk time_slot done s time_left i = rw (get_proc-idle s i) refl

-- A CPU that has no process, in a system with a valid scheduler where none is ready. Whatever the
-- number of its turns, one at least, and whatever `done` is in each of them, as long as no other thread
-- has a turn every one ends in `next_slot` and none in the end of the thread; they change nothing but
-- the two counters of the scheduler, and the system is idle as before.
pub cpu_turns-IsIdle :
    (junk : Region) (time_slot : ℕ) (done : Bool) (dones : List Bool) (s : System) (time_left : ℕ)
    → IsIdle s
    → (cpu_turns junk time_slot (done ∷ dones) s (without_process time_left)
        ≡ some (record {
          actions = replicate (suc (length dones)) Action.next_slot;
          cpu = without_process time_left;
          system = settled s;
        }))
      × IsIdle (settled s)
cpu_turns-IsIdle junk time_slot done [] s time_left i =
    (rw (cpu_turn-idle junk time_slot done s time_left i) refl, settled-IsIdle s i)
cpu_turns-IsIdle junk time_slot done (done' ∷ dones) s time_left i =
    let is = settled-IsIdle s i in
    let (e, _) = cpu_turns-IsIdle junk time_slot done' dones (settled s) time_left is in
    (rw (cpu_turn-idle junk time_slot done s time_left i, e) refl, is)

-- A CPU whose process is at the end of its code frees the process; when none is ready, its thread
-- ends if the loader is done, and waits for the next slot if not.
pub cpu_turn-finished :
    (junk : Region) (time_slot : ℕ) (done : Bool) (s : System) (time_left : ℕ) (p : Ptr)
    → IsIdle s
    → s.freed p ≡ false
    → (s.sched.heap p).pc ≡ length (s.sched.heap p).text
    → cpu_turn junk time_slot done s (record { time_left = time_left; proc = some p })
      ≡ some (record {
        action = if done then Action.stop else Action.next_slot;
        cpu = record { time_left = 0; proc = none };
        system = settled (free_pcb s p);
      })
unfolding cpu_turn check finish recheck deref free_pcb
cpu_turn-finished junk time_slot done s time_left p i alive ended =
    let at_end : ((s.sched.heap p).pc == length (s.sched.heap p).text) ≡ true = ground arith in
    rw (alive, at_end, get_proc-idle (free_pcb s p) (record { valid = i.valid; idle = i.idle }))

-- The scheduler is valid and no process is ready. A CPU has a process that is at the end of its code,
-- was not freed, and stands in a running list of two or more entries. Then its turn frees the process and
-- leaves it in that list, so that a loop of `__sys_killall` over the list that is started right after,
-- whoever calls it and whatever it looks for, has undefined behaviour.
pub cpu_turn-killall :
    (junk : Region) (time_slot : ℕ) (done : Bool) (s : System) (time_left : ℕ) (p : Ptr)
    (caller : Ptr) (proc_name : List ℕ) (count : ℕ)
    → IsIdle s
    → s.freed p ≡ false
    → (s.sched.heap p).pc ≡ length (s.sched.heap p).text
    → IsEntered s p
    → (t : Turn) × (cpu_turn junk time_slot done s (record { time_left = time_left; proc = some p })
        ≡ some t)
      × (t.system.freed p ≡ true)
      × IsEntered t.system p
      × (kill_in end_program
            (some QueueRef.running)
            caller
            proc_name
            (record { system = t.system; killed_count = count })
          ≡ none)
unfolding free_pcb queue_at
cpu_turn-killall junk time_slot done s time_left p caller proc_name count i alive ended e = (
  record {
    action = if done then Action.stop else Action.next_slot;
    cpu = record { time_left = 0; proc = none };
    system = settled (free_pcb s p);
  },
  cpu_turn-finished junk time_slot done s time_left p i alive ended,
  rw (==_self p) refl,
  record { many = e.many; index = e.index; holds = e.holds },
  kill_in-HasFreed end_program (some QueueRef.running) caller proc_name
      (record { system = settled (free_pcb s p); killed_count = count }) p
      (record {
        queue = s.sched.running_list;
        there = refl;
        many = e.many;
        index = e.index;
        holds = e.holds;
        freed = rw (==_self p) refl;
      }),
)
