-- ===== src/Killall.antt =====
-- src/sys_killall.c: `__sys_killall`. The name that it looks for is read from a memory region of the
-- caller, byte by byte. `none` is undefined behaviour, also a write behind one of the two arrays of
-- 100 characters.
pub mod Programs
pub mod Names
pub mod Freed
pub mod Live
pub mod Rounds
pub mod Blocked
pub mod Select
pub mod Sweep
mod Tests
use simple_32bit_os.Base.{
  ℕ, zero, suc, ◌+◌, ◌%◌, ◌^◌, Bool, true, false, Option, none, some, List, [], ◌∷◌, ◌++◌, ◌==◌,
  ◌&&◌, ◌||◌, leb, if◌then◌else◌, length, minus_one, ◌>>=◌,
}
use simple_32bit_os.Memory.{Caller}
use simple_32bit_os.Libmem.Alloc.{libfree}
use simple_32bit_os.Libmem.Paging.{libread}
use simple_32bit_os.Queue.{Ptr, Queue, enqueue}
use simple_32bit_os.Process.{Pcb, QueueRef}
use simple_32bit_os.Syscall.{Regs}
use simple_32bit_os.System.{
  System, deref, set_pcb, caller_of, with_caller, free_pcb, queue_at, set_queue, take_from,
}

abbrev pub name_size : ℕ
name_size = 100

-- The loop that fills `temp_name` from index `i` on, with the given number of places left: the
-- characters before the byte 0xff, which `libread` extends to -1.
pub read_name : ℕ → Caller → (memrg i : ℕ) → Option (Caller × List ℕ)
read_name zero caller memrg i = none
read_name (suc n) caller memrg i = do
  d ← libread caller memrg i
  data_ ← d.destination
  let rest = (do r ← read_name n d.proc memrg (suc i); some (r.0, (data_ % 2 ^ 8) ∷ r.1))
  if data_ == minus_one then some (d.proc, []) else rest

-- What the string functions see of an array of characters.
pub c_string : List ℕ → List ℕ
c_string [] = []
c_string (x ∷ xs) = let rest = c_string xs in if x == 0 then [] else x ∷ rest

-- "input/proc/"
abbrev pub proc_dir : List ℕ
proc_dir = 105 ∷ 110 ∷ 112 ∷ 117 ∷ 116 ∷ 47 ∷ 112 ∷ 114 ∷ 111 ∷ 99 ∷ 47 ∷ []

-- `proc_name` after the two `strcat`.
pub full_name : List ℕ → Option (List ℕ)
unfolding c_string
full_name temp_name =
    let name = proc_dir ++ c_string temp_name in
    if leb name_size (length name) then none else some name

-- `strcmp(x, y) == 0`
unfoldable pub same_text : List ℕ → List ℕ → Bool
same_text [] [] = true
same_text [] (y ∷ ys) = false
same_text (x ∷ xs) [] = false
same_text (x ∷ xs) (y ∷ ys) = if x == y then same_text xs ys else false

-- Is the process one that the loops put back?
unfoldable pub is_kept : (caller : Ptr) (proc_name : List ℕ) (target : Ptr) → Pcb → Bool
unfolding same_text
is_kept caller proc_name target c =
    if c.pid == 0 || target == caller
    then true
    else if same_text c.path proc_name
    then false
    else true

-- The system, and `killed_count`.
pub record Killed : Type 0 where
  pub system : System
  pub killed_count : ℕ

-- The two loops differ in what they do to a process that they kill.
module _ (kill : System → Ptr → Option System) (queue : Option QueueRef) (caller : Ptr)
    (proc_name : List ℕ) where
  -- What a round does with the process that it has taken out of the queue.
  pub visit : Killed → Ptr → Option Killed
  unfolding is_kept
  visit k target = do
    c ← deref k.system target
    q ← queue_at k.system queue
    let back = set_queue k.system queue (enqueue (some q) (some target))
    let killed = (do
      s ← kill k.system target
      some (record { system = s; killed_count = suc k.killed_count }))
    if is_kept caller proc_name target c then some (record k { system = back }) else killed

  -- What follows `dequeue` in a round.
  pub after_dequeue : Killed → Option Ptr × Option Queue → Option Killed
  unfolding visit
  after_dequeue k (none, q) = some (record k { system = set_queue k.system queue q })
  after_dequeue k (some target, q) = visit (record k { system = set_queue k.system queue q }) target

  -- A loop with the given number of rounds left.
  pub kill_rounds : ℕ → Killed → Option Killed
  unfolding after_dequeue
  kill_rounds zero k = some k
  kill_rounds (suc n) k = do
    q ← queue_at k.system queue
    d ← take_from k.system q
    k' ← after_dequeue k d
    kill_rounds n k'

  pub kill_in : Killed → Option Killed
  unfolding kill_rounds
  kill_in k = do q ← queue_at k.system queue; kill_rounds q.size k

-- `target->pc = target->code->size`
pub end_program : System → Ptr → Option System
end_program s target = do
  c ← deref s target
  some (set_pcb s target (record c { pc = length c.text }))

-- `libfree(target, memrg)` and `free(target)`
pub release : (memrg : ℕ) → System → Ptr → Option System
release memrg s target = do
  c ← caller_of s target
  r ← libfree c memrg
  some (free_pcb (with_caller s target r.caller) target)

-- `__sys_killall`. The list and the queue are those that the caller points at.
pub sys_killall : System → (caller : Ptr) → Regs → Option Killed
unfolding read_name full_name kill_in end_program release
sys_killall s caller regs = do
  c ← caller_of s caller
  name ← read_name name_size c regs.a1 0
  let s = with_caller s caller name.0
  proc_name ← full_name name.1
  pcb ← deref s caller
  let start : Killed = record { system = s; killed_count = 0 }
  running ← kill_in end_program pcb.running_list caller proc_name start
  ready ← kill_in (release regs.a1) pcb.mlq_ready_queue caller proc_name running
  c ← caller_of ready.system caller
  r ← libfree c regs.a1
  some (record ready { system = with_caller ready.system caller r.caller })
