-- ===== src/Os/Load/Start.antt =====
-- When `ld_routine` makes a process ready.
use simple_32bit_os.Base.{
  ℕ, suc, ◌≡◌, ◌≤◌, ◌<◌, refl, ◌∙◌, none, some, arith, ltb, Bool-cases, inl, inr, get_elem?,
}
use simple_32bit_os.Queue.{Ptr}
use simple_32bit_os.Sched.{Sched, max_prio}
use simple_32bit_os.Sched.Valid
use simple_32bit_os.Sched.Put.{prio_of, Enqueued, put_proc-Enqueued, add_proc-eq-put_proc}
use simple_32bit_os.System.{System}
use simple_32bit_os.Loader.{Stdio, Outcome}
use simple_32bit_os.Os.{Action}
use simple_32bit_os.Os.Load.{LdArgs, Ld, LdTurn, Malloc, with_mm, add_proc, start_process, ld_turn}

module _ (m : Malloc) (args : LdArgs) (time start : ℕ) (ld : Ld) (s : System) (p : Ptr) where
  -- The process goes on waiting, and nothing has changed.
  abbrev waiting : LdTurn
  waiting = record { action = Action.next_slot; ld = record ld { proc = some p }; system = s }

  -- The process is ready, and the loader goes on to the next one.
  abbrev added : Sched → LdTurn
  added sched = record {
    action = Action.next_slot;
    ld = record ld { proc = none; i = suc ld.i };
    system = record (with_mm m s p) { sched = sched };
  }

  -- What a turn with process `p` comes to.
  pub data Started : LdTurn → Type 0 where
    early : time < start → Started waiting
    late :
        start ≤ time
        → (sched : Sched) → Valid.IsValid sched
        → Enqueued s.sched p sched
        → Started (added sched)

  -- The loader waits with a process that it has loaded until the time of the timer has reached the
  -- start of the process: a turn before that changes nothing. In the first turn from then on, when
  -- the scheduler is valid and the `prio` of the process below 140, the process goes behind the ready
  -- ones of its `prio`, or is dropped if that queue is full; the scheduler stays valid, and the loader
  -- goes on to the next process.
  pub ld_turn-Started :
      (io : Stdio)
      → get_elem? args.start_time ld.i ≡ some start
      → Valid.IsValid s.sched
      → prio_of s.sched p < max_prio
      → (out : LdTurn) × (ld_turn io m args time ld s (some p) ≡ some (Outcome.returned out))
        × Started out
  unfolding ld_turn start_process add_proc with_mm
  ld_turn-Started io at valid small = elim (Bool-cases (ltb time start)) [
    | inl lt ↦ (waiting, rw (at, lt) refl, Started.early (ground arith))
    | inr ge ↦
        let (sched, e, valid', put) = put_proc-Enqueued {s = s.sched} p valid small in
        (
          added sched,
          rw (at, ge, add_proc-eq-put_proc s.sched p ∙ e) refl,
          Started.late (ground arith) sched valid' put,
        )
  ]
