-- ===== src/Killall/Freed.antt =====
-- A loop of `__sys_killall` over a queue with a process that was freed.
use simple_32bit_os.Base.{
  ℕ, zero, suc, ◌≡◌, ◌≤◌, ap, ◌∙◌, Bool, true, Option, none, some, List, [], ◌∷◌, arith, get_elem?,
  leb, ◌>>=◌,
}
use simple_32bit_os.Queue.{Ptr, Queue}
use simple_32bit_os.Queue.Contents.{contents}
use simple_32bit_os.Process.{QueueRef}
use simple_32bit_os.System.{System, queue_at, any_freed, take_from}
use simple_32bit_os.Killall.{Killed, kill_in, kill_rounds}

-- A queue of two or more processes of which one was freed.
pub record HasFreed (s : System) (ref : Option QueueRef) (p : Ptr) : Type 0 where
  pub queue : Queue
  pub there : queue_at s ref ≡ some queue
  pub many : 2 ≤ queue.size
  pub index : ℕ
  pub holds : get_elem? (contents queue) index ≡ some p
  pub freed : s.freed p ≡ true

any_freed-true :
    (freed : Ptr → Bool) (xs : List Ptr) (i : ℕ) (p : Ptr)
    → get_elem? xs i ≡ some p
    → freed p ≡ true
    → any_freed freed xs ≡ true
unfolding any_freed
any_freed-true freed [] i p at e = cc
any_freed-true freed (x ∷ xs) zero p at e = ground arith
any_freed-true freed (x ∷ xs) (suc i) p at e =
    let rest = any_freed-true freed xs i p at e in ground arith

module _ (kill : System → Ptr → Option System) (ref : Option QueueRef) (caller : Ptr)
    (proc_name : List ℕ) (k : Killed) (p : Ptr) (h : HasFreed k.system ref p) where
  take_from-HasFreed : take_from k.system h.queue ≡ none
  unfolding take_from
  take_from-HasFreed =
      let many : leb 2 h.queue.size ≡ true = ground (arith, h.many) in
      rw (many, any_freed-true k.system.freed (contents h.queue) h.index p h.holds h.freed)

  rounds-HasFreed : (n : ℕ) → 2 ≤ n → kill_rounds kill ref caller proc_name n k ≡ none
  unfolding kill_rounds
  rounds-HasFreed zero lt = absurd (omega arith)
  rounds-HasFreed (suc n) lt = rw (h.there, take_from-HasFreed)

  -- Over such a queue a loop of `__sys_killall` uses the freed block when it takes the first process
  -- out.
  pub kill_in-HasFreed : kill_in kill ref caller proc_name k ≡ none
  unfolding kill_in
  kill_in-HasFreed =
      ap (λ o. o >>= λ q. kill_rounds kill ref caller proc_name q.size k) h.there
      ∙ rounds-HasFreed h.queue.size h.many
