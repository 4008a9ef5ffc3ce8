-- ===== src/Timer/Round.antt =====
-- A round of the timer, when it need not wait.
use simple_32bit_os.Base.{
  ℕ, zero, suc, ◌+◌, ◌-◌, ◌<◌, ◌≤◌, ◌≡◌, refl, ap, ◌∙◌, inl, inr, true, false, Bool-cases, arith,
  ◌==◌, ◌||◌, if◌then◌else◌,
}
use simple_32bit_os.Timer.{TimerPc, State, Step, let_go, update, counted, next_round}
use simple_32bit_os.Timer.Retire.{Steps, join}

abbrev pub AllFsh : ℕ → State → Type 0
AllFsh n s = (j : ℕ) → j < n → (s.dev j).fsh ≡ true

-- The timer need not wait for a device.
abbrev pub Quiet : ℕ → State → Type 0
Quiet n s = (j : ℕ) → j < n → ((s.dev j).done || (s.dev j).fsh) ≡ true

abbrev pub Open : ℕ → State → Type 0
Open n s = (j : ℕ) → j < n → (s.dev j).done ≡ false

-- The rest of the first `for`.
record Counted (n fsh event : ℕ) (s : State) : Type 0 where
  last : State
  steps : Steps n s last
  fsh' : ℕ
  event' : ℕ
  timer : last.timer ≡ TimerPc.collect n fsh' event'
  same : last.dev ≡ s.dev
  equal : AllFsh n s → fsh' + event ≡ event' + fsh

count_all :
    (n m k fsh event : ℕ) (s : State)
    → s.timer ≡ TimerPc.collect k fsh event
    → k + m ≡ n
    → Quiet n s
    → Counted n fsh event s
count_all n zero k fsh event s e at quiet = record {
  last = s;
  steps = Steps.done;
  fsh' = fsh;
  event' = event;
  timer = e ∙ ap (λ k. TimerPc.collect k fsh event) {x = k} (omega arith);
  same = refl;
  equal = λ all. omega arith;
}
count_all n (suc m) k fsh event s e at quiet =
    let fsh1 = if (s.dev k).fsh then suc fsh else fsh in
    let t = record s { timer = counted (s.dev k) k fsh event } in
    let r = count_all n m (suc k) fsh1 (suc event) t refl (omega arith) quiet in
    record {
      last = r.last;
      steps =
          Steps.after (Step.count_step k fsh event e (omega arith) (quiet k (omega arith))) r.steps;
      fsh' = r.fsh';
      event' = r.event';
      timer = r.timer;
      same = r.same;
      equal = λ all.
          let one : fsh1 ≡ suc fsh = rw (all k (omega arith)) refl in
          omega (arith, r.equal all, one);
    }

-- The rest of the second `for`.
pub record LetGo (n k fsh event : ℕ) (s : State) : Type 0 where
  pub last : State
  pub steps : Steps n s last
  pub timer : last.timer ≡ TimerPc.release n fsh event
  pub before : (j : ℕ) → j < k → last.dev j ≡ s.dev j
  pub opened : (j : ℕ) → k ≤ j → j < n → (last.dev j).done ≡ false

pub release_all :
    (n m k fsh event : ℕ) (s : State)
    → s.timer ≡ TimerPc.release k fsh event
    → k + m ≡ n
    → LetGo n k fsh event s
release_all n zero k fsh event s e at = record {
  last = s;
  steps = Steps.done;
  timer = e ∙ ap (λ k. TimerPc.release k fsh event) {x = k} (omega arith);
  before = λ j lt. refl;
  opened = λ j le lt. absurd (omega arith);
}
release_all n (suc m) k fsh event s e at =
    let dev = update s.dev k (let_go (s.dev k)) in
    let t = record s { timer = TimerPc.release (suc k) fsh event; dev = dev } in
    let r = release_all n m (suc k) fsh event t refl (omega arith) in
    record {
      last = r.last;
      steps = Steps.after (Step.release_step k fsh event e (omega arith)) r.steps;
      timer = r.timer;
      before = λ j lt.
          let other : (j == k) ≡ false = ground arith in r.before j (omega arith) ∙ rw other refl;
      opened = λ j le lt. elim (Bool-cases (j == k)) [
        | inl q ↦ ap (λ d. d.done) (r.before j (ground arith)) ∙ rw q refl
        | inr q ↦ r.opened j (ground arith) lt
      ];
    }

-- The rest of a round: the timer is at the end of the loop's body, and has let go of all.
pub record Passed (n fsh event : ℕ) (s : State) : Type 0 where
  pub last : State
  pub steps : Steps n s last
  pub fsh' : ℕ
  pub event' : ℕ
  pub timer : last.timer ≡ next_round fsh' event'
  pub opened : Open n last
  pub equal : AllFsh n s → fsh' + event ≡ event' + fsh

pub pass :
    (n k fsh event : ℕ) (s : State)
    → s.timer ≡ TimerPc.collect k fsh event
    → k ≤ n
    → Quiet n s
    → Passed n fsh event s
pass n k fsh event s e le quiet =
    let c = count_all n (n - k) k fsh event s e (omega arith) quiet in
    let t = record c.last { ticks = suc c.last.ticks; timer = TimerPc.release 0 c.fsh' c.event' } in
    let g = release_all n n 0 c.fsh' c.event' t refl (omega arith) in
    let last = record g.last { timer = next_round c.fsh' c.event' } in
    record {
      last = last;
      steps = join c.steps (
          Steps.after (Step.tick_step c.fsh' c.event' c.timer)
            (join g.steps (Steps.after (Step.round_step c.fsh' c.event' g.timer) Steps.done)));
      fsh' = c.fsh';
      event' = c.event';
      timer = refl;
      opened = λ j lt. g.opened j (omega arith) lt;
      equal = c.equal;
    }
