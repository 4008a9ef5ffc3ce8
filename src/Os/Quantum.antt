-- ===== src/Os/Quantum.antt =====
-- The time that a CPU leaves to a process.
use simple_32bit_os.Base.{
  suc, sym, ap, ◌∙◌, true, if◌then◌else◌, int_sub, ℕ, ◌^◌, ◌≡◌, ◌≤◌, ◌<◌, refl, Bool, Bool-cases,
  inl, inr, Option, none, some, arith, length, ◌==◌, ==_iff, Holds, Holds-bind, Holds-some,
}
use simple_32bit_os.Memory.{Region}
use simple_32bit_os.Queue.{Ptr}
use simple_32bit_os.System.{System, deref, free_pcb}
use simple_32bit_os.Cpu.{run}
use simple_32bit_os.Os.{
  get_proc, put_proc, is_null, Cpu, Turn, Checked, load_new, finish, requeue, check, run_process,
  recheck, cpu_turn,
}

-- The time that is left is at most a slot, and nothing when there is no process.
pub record IsCpu (time_slot : ℕ) (cpu : Cpu) : Type 0 where
  pub at_most : cpu.time_left ≤ time_slot
  pub idle : cpu.proc ≡ none → cpu.time_left ≡ 0

-- What a turn does with the slots: the CPU has no process afterwards, or its process has run for the first
-- round of a whole slot, or it is the process of before and has one round less.
pub data Slot (time_slot : ℕ) (before after : Cpu) : Type 0 where
  no_process : after.proc ≡ none → Slot time_slot before after
  whole : suc after.time_left ≡ time_slot → Slot time_slot before after
  goes_on :
      after.proc ≡ before.proc
      → suc after.time_left ≡ before.time_left
      → Slot time_slot before after

-- What the first `if` of a turn leaves of the time.
data Left (before after : Cpu) : Type 0 where
  time_over : after.time_left ≡ 0 → Left before after
  as_before : after ≡ before → Left before after

null_none : (proc : Option Ptr) → is_null proc ≡ true → proc ≡ none
unfolding is_null
null_none none e = refl
null_none (some p) e = cc

module _ (junk : Region) (time_slot : ℕ) (positive : 0 < time_slot)
    (small : time_slot < 2 ^ 31) where
  abbrev Kept : Cpu → Checked → Type 0
  Kept cpu c = IsCpu time_slot c.cpu × Left cpu c.cpu × (c.waits ≡ true → c.cpu.proc ≡ none)

  abbrev KeptTurn : Cpu → Turn → Type 0
  KeptTurn cpu t = IsCpu time_slot t.cpu × Slot time_slot cpu t.cpu

  check-IsCpu :
      (s : System) (cpu : Cpu) (proc : Option Ptr)
      → cpu.proc ≡ proc
      → IsCpu time_slot cpu
      → Holds (Kept cpu) (check s cpu proc)
  unfolding check load_new finish requeue
  check-IsCpu s cpu none at is = Holds-bind (Kept cpu) (get_proc s) _ λ r e. (
    record { at_most = is.at_most; idle = λ e. is.idle at },
    Left.time_over (is.idle at),
    null_none r.0,
  )
  check-IsCpu s cpu (some p) at is = Holds-bind (Kept cpu) (deref s p) _ λ c e.
      elim (Bool-cases (c.pc == length c.text)) [
        | inl q ↦ rw q (
            Holds-bind (Kept cpu) (get_proc (free_pcb s p)) _ λ r e.
              (record { at_most = omega arith; idle = λ e. refl }, Left.time_over refl, λ e. cc))
        | inr q ↦ elim (Bool-cases (cpu.time_left == 0)) [
          | inl over ↦
              let zero_left = (==_iff cpu.time_left 0).0 over in
              rw (q, over)
                (Holds-bind (Kept cpu) (put_proc s p) _ λ s' e.
                  Holds-bind (Kept cpu) (get_proc s') _ λ r e'. (
                    record { at_most = is.at_most; idle = λ e. zero_left },
                    Left.time_over zero_left,
                    λ e. cc,
                  ))
          | inr left ↦ rw (q, left) (is, Left.as_before refl, λ e. cc)
        ]
      ]

  run_process-Slot :
      (before cpu : Cpu) (p : Ptr) (left : ℕ)
      → cpu.proc ≡ some p
      → IsCpu time_slot cpu
      → Left before cpu
      → left ≡ int_sub (if cpu.time_left == 0 then time_slot else cpu.time_left) 1
      → Slot time_slot before (record { time_left = left; proc = some p })
  run_process-Slot before cpu p left at is (Left.time_over e) l =
      let z : (cpu.time_left == 0) ≡ true = ground arith in
      let t : (if cpu.time_left == 0 then time_slot else cpu.time_left) ≡ time_slot = rw z refl in
      Slot.whole (omega (arith, positive, small, t))
  run_process-Slot before cpu p left at is (Left.as_before e) l =
      elim (Bool-cases (cpu.time_left == 0)) [
        | inl z ↦
            let t : (if cpu.time_left == 0 then time_slot else cpu.time_left) ≡ time_slot =
              rw z refl in
            Slot.whole (omega (arith, positive, small, t))
        | inr z ↦
            let t : (if cpu.time_left == 0 then time_slot else cpu.time_left) ≡ cpu.time_left =
              rw z refl in
            let some_left : 0 < cpu.time_left = ground arith in
            let same_left : cpu.time_left ≡ before.time_left = ap (λ c. c.time_left) e in
            Slot.goes_on (sym at ∙ ap (λ c. c.proc) e)
              (omega (arith, is.at_most, small, t, some_left, same_left))
      ]

  run_process-IsCpu :
      (s : System) (before cpu : Cpu) (p : Ptr)
      → cpu.proc ≡ some p
      → IsCpu time_slot cpu
      → Left before cpu
      → Holds (KeptTurn before) (run_process junk time_slot s cpu p)
  unfolding run_process
  run_process-IsCpu s before cpu p at is left =
      let slot = run_process-Slot before cpu p _ at is left refl in
      Holds-bind (KeptTurn before) (run junk s p) _
        λ r e. (record { at_most = ground (arith, is.at_most); idle = λ e. cc }, slot)

  recheck-IsCpu :
      (done : Bool) (s : System) (before cpu : Cpu) (proc : Option Ptr)
      → cpu.proc ≡ proc
      → IsCpu time_slot cpu
      → Left before cpu
      → Holds (KeptTurn before) (recheck junk time_slot done s cpu proc)
  unfolding recheck
  recheck-IsCpu done s before cpu none at is left = (is, Slot.no_process at)
  recheck-IsCpu done s before cpu (some p) at is left = run_process-IsCpu s before cpu p at is left

  -- For a positive `time_slot` that is an `int`, a turn of a CPU that does not go wrong keeps its
  -- invariant: the time that is left to a process is at most a slot, and none is left when the CPU
  -- has no process. After the turn the CPU has no process, or a whole slot less one round is left, or
  -- its process is the one that it had before and one round less is left than before. So a process that
  -- the CPU did not have before always starts with a whole slot.
  pub cpu_turn-IsCpu :
      (done : Bool) (s : System) (cpu : Cpu) (t : Turn)
      → IsCpu time_slot cpu
      → cpu_turn junk time_slot done s cpu ≡ some t
      → IsCpu time_slot t.cpu × Slot time_slot cpu t.cpu
  unfolding cpu_turn
  cpu_turn-IsCpu done s cpu t is e =
      Holds-some (KeptTurn cpu)
        (Holds-bind (KeptTurn cpu) (check s cpu cpu.proc) _ λ c e'.
          let (kept, left, waits) = Holds-some (Kept cpu) (check-IsCpu s cpu cpu.proc refl is) e' in
          elim (Bool-cases c.waits) [
            | inl w ↦ rw w (kept, Slot.no_process (waits w))
            | inr w ↦ rw w (recheck-IsCpu done c.system cpu c.cpu c.cpu.proc refl kept left)
          ])
        e
