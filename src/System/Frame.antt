-- ===== src/System/Frame.antt =====
-- A queue of the system behind a pointer to it: what is written is read back, and nothing else
-- changes.
use simple_32bit_os.Base.{
  ℕ, Bool, false, Option, none, some, List, [], ◌∷◌, ◌≡◌, refl, ap, get_elem?, set, arith, zero,
  suc,
}
use simple_32bit_os.Queue.{Ptr, Queue}
use simple_32bit_os.Process.{Pcb, QueueRef}
use simple_32bit_os.Sched.{set_mlq, set_running}
use simple_32bit_os.System.{System, set_pcb, queue_at, set_queue, any_freed}

set_zero : (qs : List Queue) (q : Queue) → get_elem? qs 0 ≡ some q → set qs 0 q ≡ qs
set_zero [] q e = refl
set_zero (q' ∷ qs) q e = cc

set_zero_at :
    (qs : List Queue) (q q' : Queue) → get_elem? qs 0 ≡ some q → get_elem? (set qs 0 q') 0 ≡ some q'
set_zero_at [] q q' e = cc
set_zero_at (x ∷ qs) q q' e = refl

module _ (s : System) where
  pub queue_at-set_queue :
      (ref : Option QueueRef) (q q' : Queue)
      → queue_at s ref ≡ some q
      → queue_at (set_queue s ref (some q')) ref ≡ some q'
  unfolding queue_at set_queue set_mlq set_running
  queue_at-set_queue none q q' e = cc
  queue_at-set_queue (some QueueRef.ready) q q' e = refl
  queue_at-set_queue (some QueueRef.running) q q' e = refl
  queue_at-set_queue (some QueueRef.mlq) q q' e = set_zero_at s.sched.mlq_ready_queue q q' e

  pub set_queue-set_queue :
      (ref : Option QueueRef) (q q' : Queue)
      → set_queue (set_queue s ref (some q)) ref (some q') ≡ set_queue s ref (some q')
  unfolding set_queue set_mlq set_running
  set_queue-set_queue none q q' = refl
  set_queue-set_queue (some QueueRef.ready) q q' = refl
  set_queue-set_queue (some QueueRef.running) q q' = refl
  set_queue-set_queue (some QueueRef.mlq) q q' =
      ap (λ qs. record s { sched = record s.sched { mlq_ready_queue = qs } })
        (set-set' s.sched.mlq_ready_queue)
    where
      set-set' : (qs : List Queue) → set (set qs 0 q) 0 q' ≡ set qs 0 q'
      set-set' [] = refl
      set-set' (x ∷ qs) = refl

  pub set_queue-queue_at :
      (ref : Option QueueRef) (q : Queue) → queue_at s ref ≡ some q → set_queue s ref (some q) ≡ s
  unfolding queue_at set_queue set_mlq set_running
  set_queue-queue_at none q e = refl
  set_queue-queue_at (some QueueRef.ready) q e = cc
  set_queue-queue_at (some QueueRef.running) q e = cc
  set_queue-queue_at (some QueueRef.mlq) q e =
      ap (λ qs. record s { sched = record s.sched { mlq_ready_queue = qs } })
        (set_zero s.sched.mlq_ready_queue q e)

  pub queue_at-set_pcb :
      (ref : Option QueueRef) (p : Ptr) (c : Pcb) → queue_at (set_pcb s p c) ref ≡ queue_at s ref
  unfolding queue_at set_pcb
  queue_at-set_pcb none p c = refl
  queue_at-set_pcb (some QueueRef.ready) p c = refl
  queue_at-set_pcb (some QueueRef.running) p c = refl
  queue_at-set_pcb (some QueueRef.mlq) p c = refl

  -- The processes stay as they are.
  pub set_queue-frame :
      (ref : Option QueueRef) (q : Option Queue)
      → let t = set_queue s ref q in
        (t.sched.heap ≡ s.sched.heap)
        × (t.freed ≡ s.freed)
        × (t.memory ≡ s.memory)
        × (t.mram ≡ s.mram)
        × (t.active_mswp ≡ s.active_mswp)
  unfolding set_queue set_mlq set_running
  set_queue-frame none q = (refl, refl, refl, refl, refl)
  set_queue-frame (some QueueRef.ready) none = (refl, refl, refl, refl, refl)
  set_queue-frame (some QueueRef.ready) (some q) = (refl, refl, refl, refl, refl)
  set_queue-frame (some QueueRef.running) none = (refl, refl, refl, refl, refl)
  set_queue-frame (some QueueRef.running) (some q) = (refl, refl, refl, refl, refl)
  set_queue-frame (some QueueRef.mlq) none = (refl, refl, refl, refl, refl)
  set_queue-frame (some QueueRef.mlq) (some q) = (refl, refl, refl, refl, refl)

pub any_freed-at :
    (freed : Ptr → Bool) (xs : List Ptr) (j : ℕ) (p : Ptr)
    → any_freed freed xs ≡ false
    → get_elem? xs j ≡ some p
    → freed p ≡ false
unfolding any_freed
any_freed-at freed [] j p e at = cc
any_freed-at freed (x ∷ xs) zero p e at = ground arith
any_freed-at freed (x ∷ xs) (suc j) p e at = any_freed-at freed xs j p (ground arith) at

pub any_freed-false :
    (freed : Ptr → Bool) (xs : List Ptr)
    → ((j : ℕ) (p : Ptr) → get_elem? xs j ≡ some p → freed p ≡ false)
    → any_freed freed xs ≡ false
unfolding any_freed
any_freed-false freed [] h = refl
any_freed-false freed (x ∷ xs) h =
    rw (h 0 x refl) (any_freed-false freed xs λ j p at. h (suc j) p at)
