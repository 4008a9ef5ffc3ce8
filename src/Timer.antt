-- ===== src/Timer.antt =====
-- src/timer.c: the timer thread and the devices, which are the CPUs and the loader, interleaved in any
-- order. A step is what a thread does while it holds a lock, or between two locks. The devices are
-- numbered as they stand in `dev_list`.
pub mod Devices
pub mod Counters
pub mod Invariant
pub mod Lockstep
pub mod Retire
pub mod Round
pub mod Progress
mod Tests
use simple_32bit_os.Base.{
  ℕ, zero, suc, ◌+◌, ◌<◌, ◌≡◌, Bool, true, false, Option, none, some, List, ◌∷◌, ◌==◌, ◌||◌,
  if◌then◌else◌, u64,
}

-- Where a device is: at work in a slot, inside `next_slot` where it waits for the timer, or behind
-- `detach_event`.
pub data DevPc : Type 0 where
  working waiting gone : DevPc

-- `struct timer_id_t`, with the place of its thread and the number of calls of `next_slot` that have
-- returned.
pub record Dev : Type 0 where
  pub pc : DevPc
  pub done : Bool
  pub fsh : Bool
  pub rounds : ℕ

-- What `attach_event` puts in front of `dev_list`, if the timer was not started.
abbrev pub new_dev : Dev
new_dev = record { pc = DevPc.working; done = false; fsh = false; rounds = 0 }

unfoldable pub attach_event : (timer_started : Bool) → List Dev → Option (List Dev)
attach_event true dev_list = none
attach_event false dev_list = some (new_dev ∷ dev_list)

-- Where `timer_routine` is: at the test of its loop, in the first or the second `for` at a device, with
-- the values of `fsh` and `event`, or at its end.
pub data TimerPc : Type 0 where
  head : TimerPc
  collect : (k fsh event : ℕ) → TimerPc
  release : (k fsh event : ℕ) → TimerPc
  over : TimerPc

-- `ticks` counts the executions of `_time++`.
pub record State : Type 0 where
  pub ticks : ℕ
  pub timer_stop : Bool
  pub timer : TimerPc
  pub dev : ℕ → Dev

pub current_time : State → ℕ
current_time s = u64 s.ticks

-- The two halves of `next_slot`, around its wait, and `detach_event`.
abbrev pub tell_done : Dev → Dev
tell_done d = record d { pc = DevPc.waiting; done = true }

abbrev pub go_on : Dev → Dev
go_on d = record d { pc = DevPc.working; rounds = suc d.rounds }

abbrev pub detach_event : Dev → Dev
detach_event d = record d { pc = DevPc.gone; fsh = true }

-- What the second `for` does to a device.
abbrev pub let_go : Dev → Dev
let_go d = record d { done = false }

abbrev pub update : (ℕ → Dev) → ℕ → Dev → ℕ → Dev
update f i d j = if j == i then d else f j

-- The first `for`: one more event, and one more finished device if it is one.
abbrev pub counted : Dev → (k fsh event : ℕ) → TimerPc
counted d k fsh event = TimerPc.collect (suc k) (if d.fsh then suc fsh else fsh) (suc event)

-- The end of the loop's body.
abbrev pub next_round : (fsh event : ℕ) → TimerPc
next_round fsh event = if fsh == event then TimerPc.over else TimerPc.head

-- One step of some thread, for `n` devices. `stop_timer` is called when all threads were joined.
pub data Step (n : ℕ) (s : State) : State → Type 0 where
  done_step :
      (i : ℕ)
      → i < n
      → (s.dev i).pc ≡ DevPc.working
      → Step n s (record s { dev = update s.dev i (tell_done (s.dev i)) })
  go_on_step :
      (i : ℕ)
      → i < n
      → (s.dev i).pc ≡ DevPc.waiting
      → (s.dev i).done ≡ false
      → Step n s (record s { dev = update s.dev i (go_on (s.dev i)) })
  detach_step :
      (i : ℕ)
      → i < n
      → (s.dev i).pc ≡ DevPc.working
      → Step n s (record s { dev = update s.dev i (detach_event (s.dev i)) })
  loop_step :
      s.timer ≡ TimerPc.head
      → s.timer_stop ≡ false
      → Step n s (record s { timer = TimerPc.collect 0 0 0 })
  leave_step :
      s.timer ≡ TimerPc.head → s.timer_stop ≡ true → Step n s (record s { timer = TimerPc.over })
  count_step :
      (k fsh event : ℕ)
      → s.timer ≡ TimerPc.collect k fsh event
      → k < n
      → ((s.dev k).done || (s.dev k).fsh) ≡ true
      → Step n s (record s { timer = counted (s.dev k) k fsh event })
  tick_step :
      (fsh event : ℕ)
      → s.timer ≡ TimerPc.collect n fsh event
      → Step n s (record s { ticks = suc s.ticks; timer = TimerPc.release 0 fsh event })
  release_step :
      (k fsh event : ℕ)
      → s.timer ≡ TimerPc.release k fsh event
      → k < n
      → Step n s (record s {
        timer = TimerPc.release (suc k) fsh event;
        dev = update s.dev k (let_go (s.dev k));
      })
  round_step :
      (fsh event : ℕ)
      → s.timer ≡ TimerPc.release n fsh event
      → Step n s (record s { timer = next_round fsh event })
  stop_step :
      ((i : ℕ) → i < n → (s.dev i).pc ≡ DevPc.gone) → Step n s (record s { timer_stop = true })

-- After `start_timer`, with `n` devices attached.
abbrev pub init : State
init = record { ticks = 0; timer_stop = false; timer = TimerPc.head; dev = λ i. new_dev }

pub data Reach (n : ℕ) : State → Type 0 where
  start : Reach n init
  later : {s t : State} → Reach n s → Step n s t → Reach n t
