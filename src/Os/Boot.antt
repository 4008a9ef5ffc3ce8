-- ===== src/Os/Boot.antt =====
-- `main` of src/os.c, up to the creation of the threads: what it makes of the configuration. `none` is
-- undefined behaviour: a path that does not fit in its 100 bytes, or a negative size of a device.
pub mod Ready
mod Tests
use simple_32bit_os.Base.{
  ℕ, zero, suc, Bool, true, false, not, Option, none, some, List, [], ◌∷◌, ◌++◌, ◌==◌, leb, is_neg,
  if◌then◌else◌, get_or, get_elem?, length, replicate, ◌>>=◌,
}
use simple_32bit_os.Memphy.{Memphy, init_memphy}
use simple_32bit_os.Memory.{Mm}
use simple_32bit_os.Queue.{Ptr, Queue, max_queue_size}
use simple_32bit_os.Process.{Heap}
use simple_32bit_os.Sched.{Sched, max_prio, init_scheduler}
use simple_32bit_os.System.{System}
use simple_32bit_os.Loader.{Stdio, Outcome}
use simple_32bit_os.Timer.{Dev, TimerPc, State, new_dev, attach_event}
use simple_32bit_os.Os.Config.{Config, rounds, path_size, read_config}

-- What the memory holds before it is written: the structs of the devices, with what the `fp_next` of a
-- first free frame leads to, and the blocks that `malloc` will give.
pub record Junk : Type 0 where
  pub mram : Memphy
  pub mswp : ℕ → Memphy
  pub fp_next : List ℕ
  pub heap : Heap
  pub memory : Ptr → Mm
  pub prio : ℕ → ℕ

-- `struct cpu_args`; a device of the timer is numbered by the devices that were attached before it.
pub record CpuArgs : Type 0 where
  pub timer_id : Option ℕ
  pub id : ℕ

-- `attach_event` before `start_timer`: what it returns, and the list of devices.
pub attach : List Dev → Option ℕ × List Dev
unfolding attach_event
attach dev_list = elim (attach_event false dev_list) [
  | none ↦ (none, dev_list)
  | some more ↦ (some (length dev_list), more)
]

-- The loop over the CPUs, with the given number of rounds left.
pub attach_cpus : ℕ → (i : ℕ) → List Dev → List CpuArgs × List Dev
unfolding attach
attach_cpus zero i dev_list = ([], dev_list)
attach_cpus (suc n) i dev_list =
    let (timer_id, more) = attach dev_list in
    let rest = attach_cpus n (suc i) more in
    (record { timer_id = timer_id; id = i } ∷ rest.0, rest.1)

-- `start_timer`
pub start_timer : List Dev → State
start_timer dev_list = record {
  ticks = 0;
  timer_stop = false;
  timer = TimerPc.head;
  dev = λ i. get_or dev_list i new_dev;
}

-- The static variables of sched.c, which are 0.
abbrev pub no_processes : Queue
no_processes = record { proc = replicate max_queue_size 0; size = 0 }

pub static_sched : Heap → Sched
static_sched heap = record {
  heap = heap;
  ready_queue = no_processes;
  run_queue = no_processes;
  running_list = no_processes;
  mlq_ready_queue = replicate max_prio no_processes;
  slot = replicate max_prio 0;
  curr_prio = 0;
  curr_slot = 0;
}

-- A device with random access. `malloc` gives no block of a negative size, and `memset` writes to it.
pub create_memphy : Memphy → (size : ℕ) → (fp_next : List ℕ) → Option Memphy
create_memphy mp size fp_next = if is_neg size then none else some (init_memphy mp size 1 fp_next)

-- The loop over the swap devices.
pub create_swaps : Junk → List ℕ → (sit : ℕ) → Option (List Memphy)
unfolding create_memphy
create_swaps j [] sit = some []
create_swaps j (size ∷ sizes) sit = do
  device ← create_memphy (j.mswp sit) size j.fp_next
  devices ← create_swaps j sizes (suc sit)
  some (device ∷ devices)

-- What the threads start with.
pub record Boot : Type 0 where
  pub config : Config
  pub cpu_args : List CpuArgs
  pub ld_event : Option ℕ
  pub dev_list : List Dev
  pub timer : State
  pub mswp : List Memphy
  pub system : System

-- `main` after `read_config`. No control block is there yet.
pub boot : Junk → Config → Option Boot
boot j c = do
  let cpus = attach_cpus (rounds c.num_cpus) 0 []
  let ld = attach cpus.1
  mram ← create_memphy j.mram c.memramsz j.fp_next
  mswp ← create_swaps j c.memswpsz 0
  active_mswp ← get_elem? mswp 0
  some (record {
    config = c;
    cpu_args = cpus.0;
    ld_event = ld.0;
    dev_list = ld.1;
    timer = start_timer ld.1;
    mswp = mswp;
    system = record {
      sched = init_scheduler (static_sched j.heap);
      memory = j.memory;
      mram = mram;
      active_mswp = active_mswp;
      freed = λ p. true;
    };
  })

-- `usage` is the return of 1 for a wrong number of arguments.
pub data Started : Type 0 where
  usage : Started
  threads : Boot → Started

pub after_config : Junk → Outcome Config → Option (Outcome Started)
after_config j Outcome.exited = some Outcome.exited
after_config j (Outcome.returned c) = do b ← boot j c; some (Outcome.returned (threads b))

-- "input/"
abbrev pub input_dir : List ℕ
input_dir = 105 ∷ 110 ∷ 112 ∷ 117 ∷ 116 ∷ 47 ∷ []

pub main : Stdio → Junk → (argv : List (List ℕ)) → Option (Outcome Started)
main io j argv =
    let configured = (do
      arg ← get_elem? argv 1
      let path = input_dir ++ arg
      let started = (do out ← read_config io j.prio path; after_config j out)
      if leb path_size (length path) then none else started) in
    if not (length argv == 2) then some (Outcome.returned usage) else configured
