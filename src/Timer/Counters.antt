-- ===== src/Timer/Counters.antt =====
-- The invariant of timer.c: where the devices may be and what the counters say, for each place of the
-- timer. A step of a device keeps it.
use simple_32bit_os.Base.{ℕ, ◌<◌, ◌≤◌, ◌≡◌, inl, inr, true, Bool-cases, ◌==◌, ==_iff}
use simple_32bit_os.Timer.{DevPc, Dev, TimerPc, State, update}
use simple_32bit_os.Timer.Devices.{Phase, phase, Ok}

-- The devices below `k` are gone.
abbrev pub AllGone : ℕ → (ℕ → Dev) → Type 0
AllGone k dev = (j : ℕ) → j < k → (dev j).pc ≡ DevPc.gone

-- What the two counters of the timer say of the `n` devices.
abbrev pub Tally : ℕ → TimerPc → (ℕ → Dev) → Type 0
Tally n TimerPc.head dev = Unit
Tally n (TimerPc.collect k fsh event) dev =
    (event ≡ k) × (k ≤ n) × (fsh ≤ k) × (fsh ≡ k → AllGone k dev)
Tally n (TimerPc.release k fsh event) dev = (event ≡ n) × (k ≤ n) × (fsh ≡ n → AllGone n dev)
Tally n TimerPc.over dev = AllGone n dev

pub record Inv (n : ℕ) (s : State) : Type 0 where
  pub devices : (j : ℕ) → j < n → Ok s.ticks (phase s.timer j) (s.dev j)
  pub tally : Tally n s.timer s.dev
  pub stopped : s.timer_stop ≡ true → AllGone n s.dev

-- A device that is changed but was not gone, or still is.
pub update-AllGone :
    (dev : ℕ → Dev) (i k : ℕ) (d : Dev)
    → ((dev i).pc ≡ DevPc.gone → d.pc ≡ DevPc.gone)
    → AllGone k dev
    → AllGone k (update dev i d)
update-AllGone dev i k d h g j lt = elim (Bool-cases (j == i)) [
  | inl e ↦ rw e (h (rw (← (==_iff j i).0 e) (g j lt)))
  | inr e ↦ rw e (g j lt)
]

update-Tally :
    (n : ℕ) (tp : TimerPc) (dev : ℕ → Dev) (i : ℕ) (d : Dev)
    → ((dev i).pc ≡ DevPc.gone → d.pc ≡ DevPc.gone)
    → Tally n tp dev
    → Tally n tp (update dev i d)
update-Tally n TimerPc.head dev i d h t = tt
update-Tally n (TimerPc.collect k fsh event) dev i d h (a, b, c, g) =
    (a, b, c, λ e. update-AllGone dev i k d h (g e))
update-Tally n (TimerPc.release k fsh event) dev i d h (a, b, g) =
    (a, b, λ e. update-AllGone dev i n d h (g e))
update-Tally n TimerPc.over dev i d h g = update-AllGone dev i n d h g

update-Ok :
    (n t : ℕ) (ph : ℕ → Phase) (dev : ℕ → Dev) (i : ℕ) (d : Dev)
    → Ok t (ph i) d
    → ((j : ℕ) → j < n → Ok t (ph j) (dev j))
    → (j : ℕ) → j < n
    → Ok t (ph j) (update dev i d j)
update-Ok n t ph dev i d o all j lt = elim (Bool-cases (j == i)) [
  | inl e ↦ rw (e, (==_iff j i).0 e) o
  | inr e ↦ rw e (all j lt)
]

-- A step of a device.
pub device-Inv :
    (n : ℕ) (s : State) (i : ℕ) (d : Dev)
    → Inv n s
    → Ok s.ticks (phase s.timer i) d
    → ((s.dev i).pc ≡ DevPc.gone → d.pc ≡ DevPc.gone)
    → Inv n (record s { dev = update s.dev i d })
device-Inv n s i d inv o h = record {
  devices = update-Ok n s.ticks (phase s.timer) s.dev i d o inv.devices;
  tally = update-Tally n s.timer s.dev i d h inv.tally;
  stopped = λ e. update-AllGone s.dev i n d h (inv.stopped e);
}
