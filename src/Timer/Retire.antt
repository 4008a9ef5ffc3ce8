-- ===== src/Timer/Retire.antt =====
-- Runs of the threads of timer.c, and the one in which every device that can leave does.
use simple_32bit_os.Base.{
  ℕ, zero, suc, ◌<◌, ◌≤◌, ◌≡◌, ◌≢◌, refl, sym, ap, subst, ◌∙◌, inl, inr, ◌⊎◌, true, false,
  Bool-cases, arith, ◌==◌, ==_iff, ==_self,
}
use simple_32bit_os.Timer.{DevPc, Dev, TimerPc, State, Step, Reach, go_on, detach_event, update}
use simple_32bit_os.Timer.Counters.{AllGone}

-- Some steps one after another.
pub data Steps (n : ℕ) : State → State → Type 0 where
  done : {s : State} → Steps n s s
  after : {s t u : State} → Step n s t → Steps n t u → Steps n s u

pub join : {n : ℕ} {s t u : State} → Steps n s t → Steps n t u → Steps n s u
join Steps.done more = more
join (Steps.after step rest) more = Steps.after step (join rest more)

pub Steps-Reach : {n : ℕ} {s t : State} → Reach n s → Steps n s t → Reach n t
Steps-Reach r Steps.done = r
Steps-Reach r (Steps.after step rest) = Steps-Reach (Reach.later r step) rest

-- A run from `s` to the end of the timer and of all devices.
pub record Ends (n : ℕ) (s : State) : Type 0 where
  pub last : State
  pub steps : Steps n s last
  pub over : last.timer ≡ TimerPc.over
  pub all_gone : AllGone n last.dev

pub Steps-Ends : {n : ℕ} {s t : State} → Steps n s t → Ends n t → Ends n s
Steps-Ends steps e = record {
  last = e.last;
  steps = join steps e.steps;
  over = e.over;
  all_gone = e.all_gone;
}

-- A device at work detaches, and one that was let go goes on and detaches; the others stay.
abbrev pub HasRetired : Dev → Dev → Type 0
HasRetired d d' = (d'.pc ≡ DevPc.gone) ⊎ ((d.done ≡ true) × (d' ≡ d))

-- The devices below `k` have retired, the others and the timer are as before.
pub record Retired (n k : ℕ) (s : State) : Type 0 where
  pub last : State
  pub steps : Steps n s last
  pub timer : last.timer ≡ s.timer
  pub stop : last.timer_stop ≡ s.timer_stop
  pub below : (j : ℕ) → j < k → HasRetired (s.dev j) (last.dev j)
  pub others : (j : ℕ) → k ≤ j → last.dev j ≡ s.dev j

-- What one device does.
record RetiredOne (n k : ℕ) (s : State) : Type 0 where
  last : State
  steps : Steps n s last
  timer : last.timer ≡ s.timer
  stop : last.timer_stop ≡ s.timer_stop
  here : HasRetired (s.dev k) (last.dev k)
  others : (j : ℕ) → j ≢ k → last.dev j ≡ s.dev j

update_self : (f : ℕ → Dev) (i : ℕ) (d : Dev) → update f i d i ≡ d
update_self f i d = rw (==_self i) refl

update_other : (f : ℕ → Dev) (i : ℕ) (d : Dev) (j : ℕ) → j ≢ i → update f i d j ≡ f j
update_other f i d j ne = let e : (j == i) ≡ false = ground arith in rw e refl

retire_one : (n k : ℕ) (s : State) → k < n → (pc : DevPc) → (s.dev k).pc ≡ pc → RetiredOne n k s
retire_one n k s lt DevPc.gone e = record {
  last = s;
  steps = Steps.done;
  timer = refl;
  stop = refl;
  here = inl e;
  others = λ j ne. refl;
}
retire_one n k s lt DevPc.working e =
    let gone = detach_event (s.dev k) in
    record {
      last = record s { dev = update s.dev k gone };
      steps = Steps.after (Step.detach_step k lt e) Steps.done;
      timer = refl;
      stop = refl;
      here = inl (ap (λ d. d.pc) (update_self s.dev k gone));
      others = update_other s.dev k gone;
    }
retire_one n k s lt DevPc.waiting e = elim (Bool-cases (s.dev k).done) [
  | inl d ↦ record {
    last = s;
    steps = Steps.done;
    timer = refl;
    stop = refl;
    here = inr (d, refl);
    others = λ j ne. refl;
  }
  | inr d ↦
      let on = go_on (s.dev k) in
      let dev1 = update s.dev k on in
      let working : (dev1 k).pc ≡ DevPc.working = ap (λ d. d.pc) (update_self s.dev k on) in
      let gone = detach_event (dev1 k) in
      record {
        last = record s { dev = update dev1 k gone };
        steps =
            Steps.after (Step.go_on_step k lt e d)
              (Steps.after (Step.detach_step k lt working) Steps.done);
        timer = refl;
        stop = refl;
        here = inl (ap (λ d. d.pc) (update_self dev1 k gone));
        others = λ j ne. update_other dev1 k gone j ne ∙ update_other s.dev k on j ne;
      }
]

pub retire : (n k : ℕ) (s : State) → k ≤ n → Retired n k s
retire n zero s le = record {
  last = s;
  steps = Steps.done;
  timer = refl;
  stop = refl;
  below = λ j lt. absurd (omega arith);
  others = λ j le. refl;
}
retire n (suc k) s le =
    let a = retire n k s (omega arith) in
    let b = retire_one n k a.last (omega arith) (a.last.dev k).pc refl in
    record {
      last = b.last;
      steps = join a.steps b.steps;
      timer = b.timer ∙ a.timer;
      stop = b.stop ∙ a.stop;
      below = λ j lt. elim (Bool-cases (j == k)) [
        | inl e ↦
            let same : HasRetired (s.dev k) (b.last.dev k) =
              subst (λ d. HasRetired d (b.last.dev k)) (a.others k (omega arith)) b.here in
            subst (λ i. HasRetired (s.dev i) (b.last.dev i)) (sym ((==_iff j k).0 e)) same
        | inr e ↦
            subst (λ d. HasRetired (s.dev j) d) (sym (b.others j (ground arith)))
              (a.below j (ground arith))
      ];
      others = λ j le. b.others j (omega arith) ∙ a.others j (omega arith);
    }
