-- ===== src/Os.antt =====
-- src/os.c: the threads `cpu_routine` and `ld_routine`. A turn is what a thread does between two calls
-- of `next_slot`, in which it waits for the others; the calls on the scheduler hold its lock. `none`
-- is undefined behaviour, also of the instruction that a CPU executes.
pub mod Idle
pub mod Slot
pub mod Quantum
pub mod Load
pub mod Config
pub mod Boot
mod Tests
use simple_32bit_os.Base.{
  ℕ, suc, ◌+◌, Bool, true, false, not, Option, none, some, List, [], ◌∷◌, ◌==◌, ◌&&◌, if◌then◌else◌,
  length, u32, u64, ltb, int_sub, get_elem?, ◌>>=◌,
}
use simple_32bit_os.Memory.{Region, Mm}
use simple_32bit_os.Mm.{init_mm}
use simple_32bit_os.Queue.{Ptr, Queue, empty}
use simple_32bit_os.Process.{Pcb}
use simple_32bit_os.Sched
use simple_32bit_os.Sched.{Sched}
use simple_32bit_os.System.{System, deref, set_pcb, free_pcb, reads_freed}
use simple_32bit_os.Cpu.{run}

-- The queue from which `get_mlq_proc` takes.
pub first_ready : List Queue → Option Queue
first_ready [] = none
first_ready (q ∷ qs) = let rest = first_ready qs in if empty (some q) then rest else some q

-- `get_proc`, when it takes from the given queue.
pub get_from : System → Option Queue → Option (Option Ptr × System)
get_from s none = let r = Sched.get_proc s.sched in some (r.0, record s { sched = r.1 })
get_from s (some q) =
    let r = Sched.get_proc s.sched in
    if reads_freed s q then none else some (r.0, record s { sched = r.1 })

pub get_proc : System → Option (Option Ptr × System)
unfolding first_ready get_from
get_proc s = get_from s (first_ready s.sched.mlq_ready_queue)

pub put_proc : System → Ptr → Option System
put_proc s p = do c ← deref s p; sched ← Sched.put_proc s.sched p; some (record s { sched = sched })

-- The local variables of `cpu_routine`.
pub record Cpu : Type 0 where
  pub time_left : ℕ
  pub proc : Option Ptr

-- How a turn ends: in `next_slot`, or the thread is over.
pub data Action : Type 0 where
  next_slot stop : Action

pub record Turn : Type 0 where
  pub action : Action
  pub cpu : Cpu
  pub system : System

-- What the first `if` leaves. `waits` is set if the turn ends there.
pub record Checked : Type 0 where
  pub waits : Bool
  pub cpu : Cpu
  pub system : System

is_null : Option Ptr → Bool
is_null none = true
is_null (some p) = false

-- "No process is running", "The process has finish it job", "The process has done its job in current
-- time slot".
pub load_new : System → Cpu → Option Checked
unfolding get_proc is_null
load_new s cpu = do
  r ← get_proc s
  some (record { waits = is_null r.0; cpu = record cpu { proc = r.0 }; system = r.1 })

pub finish : System → Ptr → Option Checked
unfolding get_proc
finish s p = do
  r ← get_proc (free_pcb s p)
  some (record { waits = false; cpu = record { time_left = 0; proc = r.0 }; system = r.1 })

pub requeue : System → Cpu → Ptr → Option Checked
unfolding get_proc put_proc
requeue s cpu p = do
  s' ← put_proc s p
  r ← get_proc s'
  some (record { waits = false; cpu = record cpu { proc = r.0 }; system = r.1 })

pub check : System → Cpu → Option Ptr → Option Checked
unfolding load_new finish requeue
check s cpu none = load_new s cpu
check s cpu (some p) = do
  c ← deref s p
  let finished = finish s p
  let over = requeue s cpu p
  let goes_on = some (record { waits = false; cpu = cpu; system = s })
  if c.pc == length c.text then finished else if cpu.time_left == 0 then over else goes_on

-- The end of a turn: the process runs.
pub run_process : (junk : Region) → (time_slot : ℕ) → System → Cpu → Ptr → Option Turn
run_process junk time_slot s cpu p = do
  let time_left = if cpu.time_left == 0 then time_slot else cpu.time_left
  r ← run junk s p
  some (record {
    action = Action.next_slot;
    cpu = record { time_left = int_sub time_left 1; proc = some p };
    system = r.system;
  })

-- "Recheck process status after loading new process"
pub recheck :
    (junk : Region) → (time_slot : ℕ) → (done : Bool) → System → Cpu → Option Ptr → Option Turn
unfolding run_process
recheck junk time_slot done s cpu none =
    some (record { action = if done then Action.stop else Action.next_slot; cpu = cpu; system = s })
recheck junk time_slot done s cpu (some p) = run_process junk time_slot s cpu p

-- A turn of `cpu_routine`.
pub cpu_turn : (junk : Region) → (time_slot : ℕ) → (done : Bool) → System → Cpu → Option Turn
unfolding check recheck
cpu_turn junk time_slot done s cpu = do
  c ← check s cpu cpu.proc
  let waiting = some (record { action = Action.next_slot; cpu = c.cpu; system = c.system })
  if c.waits then waiting else recheck junk time_slot done c.system c.cpu c.cpu.proc
