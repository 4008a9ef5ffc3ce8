-- ===== src/Os/Slot.antt =====
-- The time slot of a process on a CPU.
use simple_32bit_os.Base.{
  ℕ, zero, suc, ◌+◌, ◌^◌, ◌≡◌, ◌≤◌, ◌<◌, refl, ap, ap₂, ◌∙◌, Bool, false, Option, none, some, arith,
  length, ◌==◌, if◌then◌else◌, int_sub, u32, Holds, Holds-some, some-Holds, ◌>>=◌,
}
use simple_32bit_os.Memory.{Region}
use simple_32bit_os.Queue.{Ptr}
use simple_32bit_os.Process.{Pcb}
use simple_32bit_os.System.{System, deref}
use simple_32bit_os.Dispatch.{Result}
use simple_32bit_os.Cpu.{run}
use simple_32bit_os.Cpu.Programs.{IsReady, run-Keeps}
use simple_32bit_os.Os.{Cpu, Action, Turn, check, run_process, recheck, cpu_turn}

-- The given number of turns of one CPU after another, with no turn of another thread in between.
abbrev pub turns :
    (junk : Region) → (time_slot : ℕ) → (done : Bool) → ℕ → System → Cpu → Option (Cpu × System)
turns junk time_slot done zero s cpu = some (cpu, s)
turns junk time_slot done (suc n) s cpu = do
  t ← cpu_turn junk time_slot done s cpu
  turns junk time_slot done n t.system t.cpu

-- What is left of a slot: process `p` has run `n` instructions and its time is over.
pub record Served (s : System) (p : Ptr) (n : ℕ) (out : Cpu × System) : Type 0 where
  pub time : out.0.time_left ≡ 0
  pub proc : out.0.proc ≡ some p
  pub alive : out.1.freed p ≡ false
  pub block : out.1.sched.heap p ≡ record (s.sched.heap p) { pc = (s.sched.heap p).pc + n }

module _ (junk : Region) (time_slot : ℕ) (done : Bool) where
  -- How the turn of a process ends that has run with `suc n` rounds left.
  abbrev pub ran : Ptr → ℕ → Result → Option Turn
  ran p n r = some (record {
    action = Action.next_slot;
    cpu = record { time_left = n; proc = some p };
    system = r.system;
  })

  pub run_process-left :
      (s : System) (cpu : Cpu) (p : Ptr) (n : ℕ)
      → (if cpu.time_left == 0 then time_slot else cpu.time_left) ≡ suc n
      → suc n < 2 ^ 31
      → run_process junk time_slot s cpu p ≡ (run junk s p >>= ran p n)
  unfolding run_process
  run_process-left s cpu p n e small =
      let less : int_sub (suc n) 1 ≡ n = omega arith in
      ap (λ m. run junk s p >>= ran p (int_sub m 1)) e ∙ ap (λ m. run junk s p >>= ran p m) less

  -- A process with time left and instructions left runs.
  pub cpu_turn-run :
      (s : System) (p : Ptr) (n : ℕ)
      → IsReady s p
      → suc n < 2 ^ 31
      → cpu_turn junk time_slot done s (record { time_left = suc n; proc = some p })
        ≡ (run junk s p >>= ran p n)
  unfolding cpu_turn check recheck deref
  cpu_turn-run s p n is small =
      let unfinished : ((s.sched.heap p).pc == length (s.sched.heap p).text) ≡ false =
        ground (arith, is.unfinished) in
      let left : (suc n == 0) ≡ false = ground arith in
      rw (is.alive, unfinished, left)
        (run_process-left s (record { time_left = suc n; proc = some p }) p n (rw left refl) small)

  Served-suc :
      (s : System) (p : Ptr) (n : ℕ) (r : Result) (out : Cpu × System)
      → r.system.sched.heap p ≡ record (s.sched.heap p) { pc = u32 ((s.sched.heap p).pc + 1) }
      → (r.system.sched.heap p).pc ≡ (s.sched.heap p).pc + 1
      → Served r.system p n out
      → Served s p (suc n) out
  Served-suc s p n r out block moved w = record {
    time = w.time;
    proc = w.proc;
    alive = w.alive;
    block =
        w.block
        ∙ ap₂ {A = Pcb} (λ c m. record c { pc = m }) {v = (s.sched.heap p).pc + suc n} block
            (omega (arith, moved));
  }

  turns-Served :
      (n : ℕ) (s : System) (p : Ptr)
      → n < 2 ^ 31
      → s.freed p ≡ false
      → (s.sched.heap p).pc + n ≤ length (s.sched.heap p).text
      → length (s.sched.heap p).text < 2 ^ 32
      → Holds
          (Served s p n)
          (turns junk time_slot done n s (record { time_left = n; proc = some p }))
  turns-Served zero s p small alive inside short = record {
    time = refl;
    proc = refl;
    alive = alive;
    block = ap (λ m. record (s.sched.heap p) { pc = m }) {x = (s.sched.heap p).pc} (omega arith);
  }
  turns-Served (suc n) s p small alive inside short =
      let is : IsReady s p = record { alive = alive; unfinished = omega arith } in
      rw (cpu_turn-run s p n is small) (
        go is (λ s' alive inside short. turns-Served n s' p (omega arith) alive inside short)
          (run junk s p) refl)
    where
      Rest : System → Type 0
      Rest s' =
          Holds (Served s' p n)
            (turns junk time_slot done n s' (record { time_left = n; proc = some p }))

      go :
          IsReady s p
          → ((s' : System)
              → s'.freed p ≡ false
              → (s'.sched.heap p).pc + n ≤ length (s'.sched.heap p).text
              → length (s'.sched.heap p).text < 2 ^ 32
              → Rest s')
          → (o : Option Result) → run junk s p ≡ o
          → Holds
              (Served s p (suc n))
              ((o >>= ran p n) >>= λ t. turns junk time_slot done n t.system t.cpu)
      go is rest none e = tt
      go is rest (some r) e =
          let (block, freed, _) = run-Keeps junk s p r is e in
          let moved : (r.system.sched.heap p).pc ≡ (s.sched.heap p).pc + 1 =
            ap (λ c. c.pc) block ∙ omega (arith, is.unfinished) in
          let text : length (r.system.sched.heap p).text ≡ length (s.sched.heap p).text =
            ap (λ c. length c.text) block in
          some-Holds (Served s p (suc n))
            (turns junk time_slot done n r.system (record { time_left = n; proc = some p }))
            λ out e'. Served-suc s p n r out block moved (
              Holds-some (Served r.system p n)
                (rest r.system (freed ∙ alive) (omega arith) (omega arith)) e')

  -- While no other thread has a turn: a process that was not freed, with time for `n` instructions and
  -- as many left in its code, keeps the CPU for the next `n` turns, if none of its instructions goes
  -- wrong. It runs exactly `n` instructions, whatever they are, and no field but its program counter
  -- changes; then its time is over.
  pub turns-slot :
      (n : ℕ) (s : System) (p : Ptr) (out : Cpu × System)
      → n < 2 ^ 31
      → s.freed p ≡ false
      → (s.sched.heap p).pc + n ≤ length (s.sched.heap p).text
      → length (s.sched.heap p).text < 2 ^ 32
      → turns junk time_slot done n s (record { time_left = n; proc = some p }) ≡ some out
      → Served s p n out
  turns-slot n s p out small alive inside short e =
      Holds-some (Served s p n) (turns-Served n s p small alive inside short) e
