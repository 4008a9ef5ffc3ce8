-- ===== src/Os/Load.antt =====
-- The thread `ld_routine` of src/os.c, which loads the processes of the configuration, each when its
-- time has come.
pub mod Start
pub mod Added
use simple_32bit_os.Base.{
  ℕ, suc, ◌+◌, ◌≡◌, ◌≤◌, ◌<◌, refl, ◌∙◌, ap, Bool, true, false, Option, none, some, List, arith,
  ltb, leb, lt→ltb, le→ltb, if◌then◌else◌, length, get_elem?, u32, ◌>>=◌, ◌==◌,
}
use simple_32bit_os.Memory.{Mm, Region}
use simple_32bit_os.Mm.{init_mm}
use simple_32bit_os.Queue.{Ptr}
use simple_32bit_os.Process.{Pcb, Inst}
use simple_32bit_os.Sched
use simple_32bit_os.Sched.{Sched, max_prio}
use simple_32bit_os.Sched.Valid
use simple_32bit_os.Sched.Put.{prio_of, Enqueued, put_proc-Enqueued, add_proc-eq-put_proc}
use simple_32bit_os.System.{System, deref, set_pcb}
use simple_32bit_os.Loader.{Stdio, Outcome, load}
use simple_32bit_os.Os.{Action, next_slot, stop}

-- `struct ld_args`: the arrays that `read_config` fills.
pub record LdArgs : Type 0 where
  pub path : List (List ℕ)
  pub start_time : List ℕ
  pub prio : List ℕ
  pub num_processes : ℕ

-- The local variables of `ld_routine`, with `avail_pid` of loader.c and `done`. `proc` is set while
-- the thread waits for the start of a process.
pub record Ld : Type 0 where
  pub i : ℕ
  pub proc : Option Ptr
  pub avail_pid : ℕ
  pub done : Bool

pub record LdTurn : Type 0 where
  pub action : Action
  pub ld : Ld
  pub system : System

-- The blocks that `malloc` gives in a turn, with what is in them.
pub record Malloc : Type 0 where
  pub block : Ptr
  pub junk : Pcb
  pub junk_size : ℕ
  pub junk_text : ℕ → Inst
  pub mm : Mm
  pub pgd : ℕ → ℕ
  pub vmaid : ℕ
  pub regions : List Region

-- `proc->prio = ld_processes.prio[i]`, for a block that `load` returns.
pub enter_block : System → (p : Ptr) → Pcb → (prio : ℕ) → System
enter_block s p c prio =
    let s' = set_pcb s p (record c { prio = u32 prio }) in
    record s' { freed = λ x. if x == p then false else s'.freed x }

-- `proc->mm = malloc(..)` and `init_mm`.
pub with_mm : Malloc → System → (p : Ptr) → System
with_mm m s p = record s {
  memory = λ x. if x == p then init_mm m.mm m.pgd m.vmaid m.regions else s.memory x;
}

pub add_proc : System → Ptr → Option System
add_proc s p = do sched ← Sched.add_proc s.sched p; some (record s { sched = sched })

-- The rest of a round: wait for the start, then add the process.
pub start_process : Malloc → LdArgs → (time : ℕ) → Ld → System → Ptr → Option LdTurn
unfolding with_mm add_proc
start_process m args time ld s p = do
  start_time ← get_elem? args.start_time ld.i
  let waiting =
      some (record { action = Action.next_slot; ld = record ld { proc = some p }; system = s })
  let added = (do
    s' ← add_proc (with_mm m s p) p
    some (record {
      action = Action.next_slot;
      ld = record ld { proc = none; i = suc ld.i };
      system = s';
    }))
  if ltb time start_time then waiting else added

-- What follows `load`.
pub after_load :
    Malloc → LdArgs → (time : ℕ) → Ld → System → Outcome (Pcb × ℕ) → Option (Outcome LdTurn)
unfolding enter_block start_process
after_load m args time ld s Outcome.exited = some Outcome.exited
after_load m args time ld s (Outcome.returned (c, avail_pid)) = do
  prio ← get_elem? args.prio ld.i
  t ←
      start_process m args time (record ld { avail_pid = avail_pid }) (enter_block s m.block c prio)
        m.block
  some (Outcome.returned t)

-- A turn of `ld_routine` at the given time. A call of `exit` ends the program.
module _ (io : Stdio) (m : Malloc) (args : LdArgs) (time : ℕ) where
  pub load_next : Ld → System → Option (Outcome LdTurn)
  unfolding after_load
  load_next ld s = do
    path ← get_elem? args.path ld.i
    out ← load io ld.avail_pid m.junk m.junk_size m.junk_text path
    after_load m args time ld s out

  pub ld_turn : Ld → System → Option Ptr → Option (Outcome LdTurn)
  unfolding load_next start_process
  ld_turn ld s none =
      let over = some (
        Outcome.returned
          (record { action = Action.stop; ld = record ld { done = true }; system = s })) in
      if ltb ld.i args.num_processes then load_next ld s else over
  ld_turn ld s (some p) = do t ← start_process m args time ld s p; some (Outcome.returned t)
