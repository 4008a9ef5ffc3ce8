-- ===== src/Timer/Devices.antt =====
-- What a step of timer.c does to one device.
use simple_32bit_os.Base.{ℕ, suc, ◌≡◌, refl, ap, true, false, ◌||◌, ltb, if◌then◌else◌}
use simple_32bit_os.Timer.{DevPc, Dev, TimerPc, tell_done, go_on, detach_event, let_go}

-- How far the timer is with a device in its present round: it may go on, or it was counted, or its
-- `done` was not reset after the tick.
pub data Phase : Type 0 where
  free seen held : Phase

abbrev pub phase : TimerPc → ℕ → Phase
phase TimerPc.head j = Phase.free
phase (TimerPc.collect k fsh event) j = if ltb j k then Phase.seen else Phase.free
phase (TimerPc.release k fsh event) j = if ltb j k then Phase.free else Phase.held
phase TimerPc.over j = Phase.free

-- The states of a device after `t` ticks.
pub data Ok (t : ℕ) : Phase → Dev → Type 0 where
  is_gone : {ph : Phase} {d : Dev} → d.pc ≡ DevPc.gone → d.fsh ≡ true → Ok t ph d
  at_work :
      {d : Dev}
      → d.pc ≡ DevPc.working
      → d.done ≡ false
      → d.fsh ≡ false
      → d.rounds ≡ t
      → Ok t Phase.free d
  finished :
      {d : Dev}
      → d.pc ≡ DevPc.waiting
      → d.done ≡ true
      → d.fsh ≡ false
      → d.rounds ≡ t
      → Ok t Phase.free d
  was_seen :
      {d : Dev}
      → d.pc ≡ DevPc.waiting
      → d.done ≡ true
      → d.fsh ≡ false
      → d.rounds ≡ t
      → Ok t Phase.seen d
  is_held :
      {d : Dev}
      → d.pc ≡ DevPc.waiting
      → d.done ≡ true
      → d.fsh ≡ false
      → suc d.rounds ≡ t
      → Ok t Phase.held d
  released :
      {d : Dev}
      → d.pc ≡ DevPc.waiting
      → d.done ≡ false
      → d.fsh ≡ false
      → suc d.rounds ≡ t
      → Ok t Phase.free d

pub tell_done-Ok :
    {t : ℕ} {ph : Phase} {d : Dev} → Ok t ph d → d.pc ≡ DevPc.working → Ok t ph (tell_done d)
tell_done-Ok (Ok.at_work p q r e) w = Ok.finished refl refl r e
tell_done-Ok (Ok.is_gone p r) w = absurd (cc)
tell_done-Ok (Ok.finished p q r e) w = absurd (cc)
tell_done-Ok (Ok.was_seen p q r e) w = absurd (cc)
tell_done-Ok (Ok.is_held p q r e) w = absurd (cc)
tell_done-Ok (Ok.released p q r e) w = absurd (cc)

pub go_on-Ok :
    {t : ℕ} {ph : Phase} {d : Dev}
    → Ok t ph d
    → d.pc ≡ DevPc.waiting
    → d.done ≡ false
    → Ok t ph (go_on d)
go_on-Ok (Ok.released p q r e) w f = Ok.at_work refl f r e
go_on-Ok (Ok.is_gone p r) w f = absurd (cc)
go_on-Ok (Ok.at_work p q r e) w f = absurd (cc)
go_on-Ok (Ok.finished p q r e) w f = absurd (cc)
go_on-Ok (Ok.was_seen p q r e) w f = absurd (cc)
go_on-Ok (Ok.is_held p q r e) w f = absurd (cc)

pub detach_event-Ok : {t : ℕ} {ph : Phase} {d : Dev} → Ok t ph d → Ok t ph (detach_event d)
detach_event-Ok o = Ok.is_gone refl refl

pub seen-Ok : {t : ℕ} {d : Dev} → Ok t Phase.free d → (d.done || d.fsh) ≡ true → Ok t Phase.seen d
seen-Ok (Ok.is_gone p r) e = Ok.is_gone p r
seen-Ok (Ok.at_work p q r e) e' = absurd (cc)
seen-Ok (Ok.finished p q r e) e' = Ok.was_seen p q r e
seen-Ok (Ok.released p q r e) e' = absurd (cc)

pub held-Ok : {t : ℕ} {d : Dev} → Ok t Phase.seen d → Ok (suc t) Phase.held d
held-Ok (Ok.is_gone p r) = Ok.is_gone p r
held-Ok (Ok.was_seen p q r e) = Ok.is_held p q r (ap suc e)

pub let_go-Ok : {t : ℕ} {d : Dev} → Ok t Phase.held d → Ok t Phase.free (let_go d)
let_go-Ok (Ok.is_gone p r) = Ok.is_gone p r
let_go-Ok (Ok.is_held p q r e) = Ok.released p refl r e
