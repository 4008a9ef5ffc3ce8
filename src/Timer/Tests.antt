-- ===== src/Timer/Tests.antt =====
-- Two devices: the first has called `next_slot`, was counted, and the second is at work.
use simple_32bit_os.Base.{suc, ◌≤◌, ◌≡◌, ◌⊎◌, refl, arith, u64}
use simple_32bit_os.Timer.{
  DevPc, TimerPc, State, Step, Reach, init, update, tell_done, counted, current_time,
}
use simple_32bit_os.Timer.Lockstep.{Reach-lockstep}

abbrev looping : State
looping = record init { timer = TimerPc.collect 0 0 0 }

abbrev first_done : State
first_done = record looping { dev = update looping.dev 0 (tell_done (looping.dev 0)) }

abbrev first_counted : State
first_counted = record first_done { timer = counted (first_done.dev 0) 0 0 0 }

first_counted-Reach : Reach 2 first_counted
first_counted-Reach =
    Reach.later
      (Reach.later (Reach.later Reach.start (Step.loop_step refl refl))
        (Step.done_step 0 (omega arith) refl))
      (Step.count_step 0 0 0 refl (omega arith) refl)

Reach-lockstep_example :
    ((current_time first_counted ≡ u64 0)
      ⊎ (((first_counted.dev 0).pc ≡ DevPc.waiting) × (current_time first_counted ≡ u64 1)))
    × ((first_counted.dev 0).rounds ≤ suc (first_counted.dev 1).rounds)
    × ((first_counted.dev 1).rounds ≤ suc (first_counted.dev 0).rounds)
Reach-lockstep_example =
    Reach-lockstep 2 first_counted 0 1 first_counted-Reach (omega arith) (omega arith) (λ e. cc)
      (λ e. cc)
