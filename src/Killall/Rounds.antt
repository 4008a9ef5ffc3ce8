-- ===== src/Killall/Rounds.antt =====
-- One round of a loop of `__sys_killall`.
use simple_32bit_os.Base.{
  ℕ, suc, ◌≡◌, refl, ap, ◌∙◌, Bool, true, false, Option, some, List, [], ◌∷◌, ◌++◌,
}
use simple_32bit_os.Queue.{Ptr, Queue, enqueue}
use simple_32bit_os.Process.{QueueRef}
use simple_32bit_os.System.{System, deref, queue_at, set_queue}
use simple_32bit_os.System.Frame.{queue_at-set_queue, set_queue-set_queue, set_queue-frame}
use simple_32bit_os.Killall.{Killed, is_kept, visit, after_dequeue, kill_rounds}
use simple_32bit_os.Killall.Live.{Rearranged, Taken, put_back}

module _ (kill : System → Ptr → Option System) (ref : Option QueueRef) (caller : Ptr)
    (proc_name : List ℕ) where
  -- The process that a round has taken, and whether it is put back.
  abbrev pub keeps : Killed → Ptr → Bool
  keeps k x = is_kept caller proc_name x (k.system.sched.heap x)

  -- The system when a process was taken out of the queue.
  abbrev pub without : {s : System} {xs ys : List Ptr} {x : Ptr} → Taken s ref xs x ys → System
  without {s} t = set_queue s ref (some t.queue')

  visit_kept :
      (k : Killed) (x : Ptr) {q q' : Queue}
      → k.system.freed x ≡ false
      → queue_at k.system ref ≡ some q
      → keeps k x ≡ true
      → enqueue (some q) (some x) ≡ some q'
      → visit kill ref caller proc_name k x
        ≡ some (record k { system = set_queue k.system ref (some q') })
  unfolding visit deref
  visit_kept k x alive at e put = rw (alive, at, e, put)

  visit_killed :
      (k : Killed) (x : Ptr) {q : Queue} {s : System}
      → k.system.freed x ≡ false
      → queue_at k.system ref ≡ some q
      → keeps k x ≡ false
      → kill k.system x ≡ some s
      → visit kill ref caller proc_name k x
        ≡ some (record { system = s; killed_count = suc k.killed_count })
  unfolding visit deref
  visit_killed k x alive at e killed = rw (alive, at, e, killed)

  kill_rounds-taken :
      (k : Killed) {xs ys : List Ptr} {x : Ptr} {k' : Killed} (n : ℕ)
      (t : Taken k.system ref xs x ys)
      → visit kill ref caller proc_name (record k { system = without t }) x ≡ some k'
      → kill_rounds kill ref caller proc_name (suc n) k ≡ kill_rounds kill ref caller proc_name n k'
  unfolding kill_rounds after_dequeue
  kill_rounds-taken k n t e = rw (t.there, t.result, e)

  module _ (k : Killed) {xs ys : List Ptr} {x : Ptr} (n : ℕ) (t : Taken k.system ref xs x ys) where
    alive' : (without t).freed x ≡ false
    alive' = ap (λ f. f x) (set_queue-frame k.system ref (some t.queue')).1 ∙ t.alive

    keeps' : keeps (record k { system = without t }) x ≡ keeps k x
    keeps' =
        ap (λ h. is_kept caller proc_name x (h x)) (set_queue-frame k.system ref (some t.queue')).0

    at' : queue_at (without t) ref ≡ some t.queue'
    at' = queue_at-set_queue k.system ref t.queue t.queue' t.there

    -- A round that puts the process back.
    pub kill_rounds-kept :
        keeps k x ≡ true
        → (s : System) × Rearranged k.system ref (ys ++ (x ∷ [])) s
          × (kill_rounds kill ref caller proc_name (suc n) k
              ≡ kill_rounds kill ref caller proc_name n (record k { system = s }))
    kill_rounds-kept e =
        let (q, put, valid, holds) = put_back t in
        (
          set_queue k.system ref (some q),
          record { queue = q; result = refl; valid = valid; holds = holds },
          kill_rounds-taken k n t (
              visit_kept (record k { system = without t }) x alive' at' (keeps' ∙ e) put
              ∙ ap (λ s. some (record k { system = s }))
                  (set_queue-set_queue k.system ref t.queue' q)),
        )

    -- A round that kills it.
    pub kill_rounds-killed :
        (s : System)
        → keeps k x ≡ false
        → kill (without t) x ≡ some s
        → kill_rounds kill ref caller proc_name (suc n) k
          ≡ kill_rounds kill ref caller proc_name n
              (record { system = s; killed_count = suc k.killed_count })
    kill_rounds-killed s e killed =
        kill_rounds-taken k n t
          (visit_killed (record k { system = without t }) x alive' at' (keeps' ∙ e) killed)
