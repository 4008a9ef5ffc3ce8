-- ===== src/Timer/Invariant.antt =====
-- The steps of the timer keep the invariant.
use simple_32bit_os.Base.{
  ℕ, suc, ◌<◌, ◌≡◌, refl, sym, ap, subst, ◌∙◌, inl, inr, true, Bool-cases, arith, ◌==◌, ◌||◌,
  ==_iff,
}
use simple_32bit_os.Timer.{
  DevPc, Dev, TimerPc, State, Step, Reach, tell_done, go_on, detach_event, let_go, update, counted,
  next_round,
}
use simple_32bit_os.Timer.Devices.{
  Phase, phase, Ok, tell_done-Ok, go_on-Ok, detach_event-Ok, seen-Ok, held-Ok, let_go-Ok,
}
use simple_32bit_os.Timer.Counters.{Tally, Inv, update-AllGone, device-Inv}

-- A step of the timer, which stands at `tp`.
module _ (n : ℕ) (s : State) (inv : Inv n s) (tp : TimerPc) (e : s.timer ≡ tp) where
  device_at : (j : ℕ) (ph : Phase) → j < n → phase tp j ≡ ph → Ok s.ticks ph (s.dev j)
  device_at j ph lt e' =
      subst (λ ph. Ok s.ticks ph (s.dev j)) (ap (λ tp. phase tp j) e ∙ e') (inv.devices j lt)

  Tally-at : Tally n tp s.dev
  Tally-at = subst (λ tp. Tally n tp s.dev) e inv.tally

Ok-phase : {t : ℕ} (ph ph' : Phase) (d : Dev) → ph ≡ ph' → Ok t ph d → Ok t ph' d
Ok-phase {t} ph ph' d e o = subst (λ ph. Ok t ph d) e o

fsh_gone : {t : ℕ} {ph : Phase} {d : Dev} → Ok t ph d → d.fsh ≡ true → d.pc ≡ DevPc.gone
fsh_gone (Ok.is_gone p r) f = p
fsh_gone (Ok.at_work p q r e) f = absurd (cc)
fsh_gone (Ok.finished p q r e) f = absurd (cc)
fsh_gone (Ok.was_seen p q r e) f = absurd (cc)
fsh_gone (Ok.is_held p q r e) f = absurd (cc)
fsh_gone (Ok.released p q r e) f = absurd (cc)

loop-Inv :
    (n : ℕ) (s : State)
    → Inv n s
    → s.timer ≡ TimerPc.head
    → Inv n (record s { timer = TimerPc.collect 0 0 0 })
loop-Inv n s inv e = record {
  devices = λ j lt.
      Ok-phase Phase.free (phase (TimerPc.collect 0 0 0) j) (s.dev j) (ground arith)
        (device_at n s inv TimerPc.head e j Phase.free lt refl);
  tally = (refl, omega arith, omega arith, λ e j lt. absurd (omega arith));
  stopped = inv.stopped;
}

leave-Inv :
    (n : ℕ) (s : State)
    → Inv n s
    → s.timer ≡ TimerPc.head
    → s.timer_stop ≡ true
    → Inv n (record s { timer = TimerPc.over })
leave-Inv n s inv e f = record {
  devices = λ j lt. device_at n s inv TimerPc.head e j Phase.free lt refl;
  tally = inv.stopped f;
  stopped = inv.stopped;
}

module _ (n : ℕ) (s : State) (inv : Inv n s) (k fsh event : ℕ) where
  -- The two counters after the device at `k` was counted.
  count-Tally :
      s.timer ≡ TimerPc.collect k fsh event → k < n → Tally n (counted (s.dev k) k fsh event) s.dev
  count-Tally e lt =
      let (a, b, c, g) = Tally-at n s inv (TimerPc.collect k fsh event) e in
      elim (Bool-cases (s.dev k).fsh) [
        | inl f ↦ rw f (
          ap suc a,
          lt,
          omega arith,
          λ e' j lt'. elim (Bool-cases (j == k)) [
            | inl q ↦ ap (λ j. (s.dev j).pc) ((==_iff j k).0 q) ∙ fsh_gone (inv.devices k lt) f
            | inr q ↦ g (omega arith) j (ground arith)
          ],
        )
        | inr f ↦ rw f (ap suc a, lt, omega arith, λ e'. absurd (omega arith))
      ]

  count-Inv :
      s.timer ≡ TimerPc.collect k fsh event
      → k < n
      → ((s.dev k).done || (s.dev k).fsh) ≡ true
      → Inv n (record s { timer = counted (s.dev k) k fsh event })
  count-Inv e lt d = record {
    devices = λ j lt'. elim (Bool-cases (j == k)) [
      | inl q ↦
          subst (λ j. Ok s.ticks (phase (counted (s.dev k) k fsh event) j) (s.dev j))
            (sym ((==_iff j k).0 q))
            (Ok-phase Phase.seen (phase (counted (s.dev k) k fsh event) k) (s.dev k) (ground arith)
              (seen-Ok
                (device_at n s inv (TimerPc.collect k fsh event) e k Phase.free lt (ground arith))
                d))
      | inr q ↦
          Ok-phase (phase (TimerPc.collect k fsh event) j) (phase (counted (s.dev k) k fsh event) j)
            (s.dev j) (ground arith)
            (device_at n s inv (TimerPc.collect k fsh event) e j
              (phase (TimerPc.collect k fsh event) j) lt' refl)
    ];
    tally = count-Tally e lt;
    stopped = inv.stopped;
  }

  tick-Inv :
      s.timer ≡ TimerPc.collect n fsh event
      → Inv n (record s { ticks = suc s.ticks; timer = TimerPc.release 0 fsh event })
  tick-Inv e = record {
    devices = λ j lt.
        Ok-phase Phase.held (phase (TimerPc.release 0 fsh event) j) (s.dev j) (ground arith) (
          held-Ok
            (device_at n s inv (TimerPc.collect n fsh event) e j Phase.seen lt (ground arith)));
    tally =
        let (a, b, c, g) = Tally-at n s inv (TimerPc.collect n fsh event) e in (a, omega arith, g);
    stopped = inv.stopped;
  }

  release-Inv :
      s.timer ≡ TimerPc.release k fsh event
      → k < n
      → Inv n (record s {
        timer = TimerPc.release (suc k) fsh event;
        dev = update s.dev k (let_go (s.dev k));
      })
  release-Inv e lt = record {
    devices = λ j lt'. elim (Bool-cases (j == k)) [
      | inl q ↦ rw q (
          Ok-phase Phase.free (phase (TimerPc.release (suc k) fsh event) j) (let_go (s.dev k))
            (ground arith)
            (let_go-Ok
              (device_at n s inv (TimerPc.release k fsh event) e k Phase.held lt (ground arith))))
      | inr q ↦ rw q (
          Ok-phase (phase (TimerPc.release k fsh event) j)
            (phase (TimerPc.release (suc k) fsh event) j) (s.dev j) (ground arith)
            (device_at n s inv (TimerPc.release k fsh event) e j
              (phase (TimerPc.release k fsh event) j) lt' refl))
    ];
    tally =
        let (a, b, g) = Tally-at n s inv (TimerPc.release k fsh event) e in
        (a, omega arith, λ e. update-AllGone s.dev k n (let_go (s.dev k)) (λ w. w) (g e));
    stopped = λ e. update-AllGone s.dev k n (let_go (s.dev k)) (λ w. w) (inv.stopped e);
  }

  round-Inv :
      s.timer ≡ TimerPc.release n fsh event → Inv n (record s { timer = next_round fsh event })
  round-Inv e =
      let (a, b, g) = Tally-at n s inv (TimerPc.release n fsh event) e in
      let all : (j : ℕ) → j < n → Ok s.ticks Phase.free (s.dev j) =
        λ j lt. device_at n s inv (TimerPc.release n fsh event) e j Phase.free lt (ground arith) in
      elim (Bool-cases (fsh == event)) [
        | inl q ↦ rw q (record {
          devices = all;
          tally = g ((==_iff fsh event).0 q ∙ a);
          stopped = inv.stopped;
        })
        | inr q ↦ rw q (record { devices = all; tally = tt; stopped = inv.stopped })
      ]

Step-Inv : (n : ℕ) (s t : State) → Inv n s → Step n s t → Inv n t
Step-Inv n s t inv (Step.done_step i lt w) =
    device-Inv n s i (tell_done (s.dev i)) inv (tell_done-Ok (inv.devices i lt) w)
      (λ e. absurd (cc (e, w)))
Step-Inv n s t inv (Step.go_on_step i lt w f) =
    device-Inv n s i (go_on (s.dev i)) inv (go_on-Ok (inv.devices i lt) w f)
      (λ e. absurd (cc (e, w)))
Step-Inv n s t inv (Step.detach_step i lt w) =
    device-Inv n s i (detach_event (s.dev i)) inv (detach_event-Ok (inv.devices i lt)) (λ e. refl)
Step-Inv n s t inv (Step.loop_step e f) = loop-Inv n s inv e
Step-Inv n s t inv (Step.leave_step e f) = leave-Inv n s inv e f
Step-Inv n s t inv (Step.count_step k fsh event e lt d) = count-Inv n s inv k fsh event e lt d
Step-Inv n s t inv (Step.tick_step fsh event e) = tick-Inv n s inv 0 fsh event e
Step-Inv n s t inv (Step.release_step k fsh event e lt) = release-Inv n s inv k fsh event e lt
Step-Inv n s t inv (Step.round_step fsh event e) = round-Inv n s inv 0 fsh event e
Step-Inv n s t inv (Step.stop_step g) = record {
  devices = inv.devices;
  tally = inv.tally;
  stopped = λ e. g;
}

pub Reach-Inv : (n : ℕ) (s : State) → Reach n s → Inv n s
Reach-Inv n s Reach.start = record {
  devices = λ j lt. Ok.at_work refl refl refl refl;
  tally = tt;
  stopped = λ e. cc;
}
Reach-Inv n s (Reach.later {s = r} reach step) = Step-Inv n r s (Reach-Inv n r reach) step
