-- ===== src/Os/Load/Added.antt =====
-- A process that the loader adds while no other is ready, and a CPU that has none.
use simple_32bit_os.Base.{
  ℕ, suc, ◌≡◌, ◌≤◌, ◌<◌, refl, Bool, false, Bool-cases, inl, inr, none, some, List, [], ◌∷◌, arith,
  get_elem?, leb, ◌>>=◌, ◌^◌,
}
use simple_32bit_os.Memory.{Region}
use simple_32bit_os.Queue.{Ptr, Queue, empty}
use simple_32bit_os.Sched
use simple_32bit_os.Sched.{Sched, max_prio}
use simple_32bit_os.Sched.Policy.{Enqueued-single, Enqueued-next}
use simple_32bit_os.Sched.Put.{prio_of, Enqueued}
use simple_32bit_os.System.{System}
use simple_32bit_os.Cpu.{run}
use simple_32bit_os.Os.{
  first_ready, get_from, get_proc, is_null, load_new, check, recheck, cpu_turn,
}
use simple_32bit_os.Os.Idle.{IsIdle}
use simple_32bit_os.Os.Slot.{ran, run_process-left}
use simple_32bit_os.Sched.Valid
use simple_32bit_os.Loader.{Stdio, Outcome}
use simple_32bit_os.Os.Load.{LdArgs, Ld, LdTurn, Malloc, with_mm, ld_turn}
use simple_32bit_os.Os.Load.Start.{Started, early, late, ld_turn-Started}

-- A queue of at most one process is taken from without a look at its block.
get_from-small :
    (s : System) (qs : List Queue)
    → ((j : ℕ) (q : Queue) → get_elem? qs j ≡ some q → q.size ≤ 1)
    → get_from s (first_ready qs)
      ≡ some ((Sched.get_proc s.sched).0, record s { sched = (Sched.get_proc s.sched).1 })
unfolding first_ready get_from
get_from-small s [] h = refl
get_from-small s (q ∷ qs) h = elim (Bool-cases (empty (some q))) [
  | inl e ↦ rw e (get_from-small s qs λ j q at. h (suc j) q at)
  | inr e ↦ let small : leb 2 q.size ≡ false = ground (arith, h 0 q refl) in rw (e, small) refl
]

module _ (junk : Region) (n : ℕ) (done : Bool) where
  -- What the turn of a CPU without a process comes to, when only `p` is ready.
  cpu_turn-next :
      (s t : System) (p : Ptr)
      → IsIdle s
      → prio_of s.sched p < max_prio
      → suc n < 2 ^ 31
      → Valid.IsValid t.sched
      → Enqueued s.sched p t.sched
      → cpu_turn junk (suc n) done t (record { time_left = 0; proc = none }) ≡ (
          run junk (record t { sched = (Sched.get_proc t.sched).1 }) p
          >>= ran junk (suc n) done p n)
  unfolding cpu_turn check load_new recheck is_null get_proc
  cpu_turn-next s t p i small lt valid put =
      let next = Enqueued-next i.valid i.idle small valid put in
      let got =
        get_from-small t t.sched.mlq_ready_queue (Enqueued-single i.valid i.idle small put) in
      rw (got, next)
        (run_process-left junk (suc n) done (record t { sched = (Sched.get_proc t.sched).1 })
          (record { time_left = 0; proc = some p }) p n refl lt)

  -- While the scheduler is valid and no process is ready, the loader has a turn with a process whose
  -- start has come and whose `prio` is below 140, and then a CPU that has no process and no time left
  -- has one. The turn of the loader succeeds, and in its turn the CPU takes that process from the
  -- scheduler and runs its next instruction. Unless the instruction goes wrong, the CPU keeps the
  -- process, with all of a time slot but one round.
  pub cpu_turn-ld_turn :
      (io : Stdio) (m : Malloc) (args : LdArgs) (time start : ℕ) (ld : Ld) (s : System) (p : Ptr)
      → get_elem? args.start_time ld.i ≡ some start
      → start ≤ time
      → IsIdle s
      → prio_of s.sched p < max_prio
      → suc n < 2 ^ 31
      → (out : LdTurn) × (ld_turn io m args time ld s (some p) ≡ some (Outcome.returned out))
        × (cpu_turn junk (suc n) done out.system (record { time_left = 0; proc = none }) ≡ (
            run junk (record out.system { sched = (Sched.get_proc out.system.sched).1 }) p
            >>= ran junk (suc n) done p n))
  unfolding with_mm
  cpu_turn-ld_turn io m args time start ld s p at come i small lt =
      let (out, e, started) = ld_turn-Started m args time start ld s p io at i.valid small in
      (out, e, go started)
    where
      go :
          {out : LdTurn}
          → Started m args time start ld s p out
          → cpu_turn junk (suc n) done out.system (record { time_left = 0; proc = none }) ≡ (
              run junk (record out.system { sched = (Sched.get_proc out.system.sched).1 }) p
              >>= ran junk (suc n) done p n)
      go (early too_soon) = absurd (omega (arith, come))
      go (late _ sched valid put) =
          cpu_turn-next s (record (with_mm m s p) { sched = sched }) p i small lt valid put
