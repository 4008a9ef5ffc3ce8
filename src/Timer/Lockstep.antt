-- ===== src/Timer/Lockstep.antt =====
-- The devices of timer.c go in lockstep with its time.
use simple_32bit_os.Base.{ℕ, suc, ◌<◌, ◌≤◌, ◌≡◌, ◌≢◌, sym, ap, subst, inl, inr, ◌⊎◌, arith, u64}
use simple_32bit_os.Timer.{DevPc, Dev, TimerPc, State, Reach, current_time}
use simple_32bit_os.Timer.Devices.{Phase, Ok}
use simple_32bit_os.Timer.Counters.{AllGone, Tally}
use simple_32bit_os.Timer.Invariant.{Reach-Inv}

-- What a device that is not gone knows of the number of ticks.
rounds_near :
    {t : ℕ} {ph : Phase} {d : Dev}
    → Ok t ph d
    → d.pc ≢ DevPc.gone
    → (d.rounds ≤ t) × (t ≤ suc d.rounds)
rounds_near (Ok.is_gone p r) ne = absurd (ne p)
rounds_near (Ok.at_work p q r e) ne = omega arith
rounds_near (Ok.finished p q r e) ne = omega arith
rounds_near (Ok.was_seen p q r e) ne = omega arith
rounds_near (Ok.is_held p q r e) ne = omega arith
rounds_near (Ok.released p q r e) ne = omega arith

-- A device that is not gone has as many slots behind it as there were ticks, or waits with one less.
rounds_now :
    {t : ℕ} {ph : Phase} {d : Dev}
    → Ok t ph d
    → d.pc ≢ DevPc.gone
    → (t ≡ d.rounds) ⊎ ((d.pc ≡ DevPc.waiting) × (t ≡ suc d.rounds))
rounds_now (Ok.is_gone p r) ne = absurd (ne p)
rounds_now (Ok.at_work p q r e) ne = inl (sym e)
rounds_now (Ok.finished p q r e) ne = inl (sym e)
rounds_now (Ok.was_seen p q r e) ne = inl (sym e)
rounds_now (Ok.is_held p q r e) ne = inr (p, sym e)
rounds_now (Ok.released p q r e) ne = inr (p, sym e)

-- In every state that the threads can reach, in any interleaving, for two devices that have not
-- detached: modulo 2 ^ 64 the time is the number of slots of the first so far or, only while that device
-- waits in `next_slot`, one more; and neither device is more than one slot ahead of the other.
pub Reach-lockstep :
    (n : ℕ) (s : State) (i j : ℕ)
    → Reach n s
    → i < n
    → j < n
    → (s.dev i).pc ≢ DevPc.gone
    → (s.dev j).pc ≢ DevPc.gone
    → ((current_time s ≡ u64 (s.dev i).rounds)
        ⊎ (((s.dev i).pc ≡ DevPc.waiting) × (current_time s ≡ u64 (suc (s.dev i).rounds))))
      × ((s.dev i).rounds ≤ suc (s.dev j).rounds)
      × ((s.dev j).rounds ≤ suc (s.dev i).rounds)
unfolding current_time
Reach-lockstep n s i j r lt lt' ne ne' =
    let inv = Reach-Inv n s r in
    let near = rounds_near (inv.devices i lt) ne in
    let near' = rounds_near (inv.devices j lt') ne' in
    (
      elim (rounds_now (inv.devices i lt) ne) [
        | inl e ↦ inl (ap u64 e)
        | inr (w, e) ↦ inr (w, ap u64 e)
      ],
      omega (arith, near.0, near'.1),
      omega (arith, near'.0, near.1),
    )

-- In every state that the threads can reach, the timer has ended only when every device has called
-- `detach_event`.
pub Reach-over : (n : ℕ) (s : State) → Reach n s → s.timer ≡ TimerPc.over → AllGone n s.dev
Reach-over n s r e = subst (λ tp. Tally n tp s.dev) e (Reach-Inv n s r).tally
