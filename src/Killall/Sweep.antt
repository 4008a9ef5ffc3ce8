-- ===== src/Killall/Sweep.antt =====
-- A loop of `__sys_killall` over processes of one `priority` number.
use simple_32bit_os.Base.{
  ◌>>=◌, ℕ, zero, suc, ◌<◌, ◌≡◌, refl, sym, ap, subst, ◌∙◌, Bool, true, false, not, Bool-cases, inl,
  inr, Option, some, List, [], ◌∷◌, ◌++◌, arith, length, get_elem?, ◌==◌, ==_iff, if◌then◌else◌,
}
use simple_32bit_os.Queue.{Ptr}
use simple_32bit_os.Queue.Contents.{remove_at}
use simple_32bit_os.Process.{Pcb, Heap, QueueRef, store}
use simple_32bit_os.Sched.{priority_of}
use simple_32bit_os.System.{System, deref, set_pcb}
use simple_32bit_os.System.Frame.{
  queue_at-set_queue, queue_at-set_pcb, set_queue-frame, any_freed-at, any_freed-false,
}
use simple_32bit_os.Killall.{Killed, end_program, kill_rounds, kill_in}
use simple_32bit_os.Killall.Live.{
  Live, Taken, Live-size, again-Inside, take_from-Taken, Rearranged-Live, Rearranged-heap,
}
use simple_32bit_os.Killall.Rounds.{without, kill_rounds-kept, kill_rounds-killed}
use simple_32bit_os.Killall.Select.{
  ended, AllAt, append_nil, assoc, kept_of, Swept, Swept-kept, Swept-killed,
}

-- With one `priority` number for all, a round takes the oldest.
first_taken :
    {s : System} {ref : Option QueueRef} {zs ys : List Ptr} {x y : Ptr} (c : ℕ)
    → Taken s ref (x ∷ zs) y ys
    → AllAt s.sched.heap c (x ∷ zs)
    → (y ≡ x) × (ys ≡ zs)
unfolding priority_of
first_taken {s} {zs = zs} {ys = ys} {x = x} {y = y} c t same =
    at_front t.picks.index t.picks.found t.picks.rest λ lt.
      omega (arith, t.picks.earlier 0 x refl lt, same 0 x refl, same t.picks.index y t.picks.found)
  where
    at_front :
        (i : ℕ)
        → get_elem? (x ∷ zs) i ≡ some y
        → ys ≡ remove_at i (x ∷ zs)
        → (0 < i → ⊥)
        → (y ≡ x) × (ys ≡ zs)
    at_front zero e r h = (cc, r)
    at_front (suc i) e r h = absurd (h (omega arith))

store-ended :
    (h : Heap) (x y : Ptr) → store h x (ended (h x)) y ≡ (if y == x then ended (h y) else h y)
store-ended h x y = elim (Bool-cases (y == x)) [
  | inl is ↦ rw (is, (==_iff y x).0 is) refl
  | inr not ↦ rw not refl
]

priority-ended :
    (c c' : Pcb) (b : Bool) → c' ≡ (if b then ended c else c) → c'.priority ≡ c.priority
priority-ended c c' true e = ap (λ c. c.priority) e
priority-ended c c' false e = ap (λ c. c.priority) e

oldest :
    {s : System} {ref : Option QueueRef} {zs : List Ptr} {x : Ptr} (c : ℕ)
    → Live s ref (x ∷ zs)
    → AllAt s.sched.heap c (x ∷ zs)
    → Taken s ref (x ∷ zs) x zs
oldest {s} {ref} {zs} {x} c l same =
    let (y, ys, t) = take_from-Taken l cons≢nil in
    let (e, e') = first_taken c t same in
    subst (λ z. Taken s ref (x ∷ zs) x z) e' (subst (λ z. Taken s ref (x ∷ zs) z ys) e t)
  where
    cons≢nil : (x ∷ zs) ≡ [] → ⊥
    cons≢nil e = cc

module _ (ref : Option QueueRef) (caller : Ptr) (proc_name : List ℕ) where
  abbrev rounds : ℕ → Killed → Option Killed
  rounds n k = kill_rounds end_program ref caller proc_name n k

  -- What is known when the loop goes on with the rest.
  record GoesOn (k : Killed) (n : ℕ) (c : ℕ) (zs : List Ptr) (k1 : Killed) : Type 0 where
    live : Live k1.system ref zs
    same : AllAt k1.system.sched.heap c zs
    freed : k1.system.freed ≡ k.system.freed
    goes_on : rounds (suc n) k ≡ rounds n k1

  module _ (k : Killed) (n c : ℕ) (x : Ptr) (zs : List Ptr) where
    round_kept :
        Live k.system ref (x ∷ zs)
        → AllAt k.system.sched.heap c (x ∷ zs)
        → Taken k.system ref (x ∷ zs) x zs
        → kept_of caller proc_name k.system.sched.heap x ≡ true
        → (s : System) × (s.sched.heap ≡ k.system.sched.heap)
          × GoesOn k n c (zs ++ (x ∷ [])) (record k { system = s })
    round_kept l same t e =
        let (s, r, go) = kill_rounds-kept end_program ref caller proc_name k n t e in
        (
          s,
          Rearranged-heap r,
          record {
            live = Rearranged-Live l r (again-Inside t);
            same = λ j p at.
                let (i, at') = again-Inside t j p at in
                ap (λ h. (h p).priority) (Rearranged-heap r) ∙ same i p at';
            freed = ap (λ u. u.freed) r.result ∙ (set_queue-frame k.system ref (some r.queue)).1;
            goes_on = go;
          },
        )

    round_killed :
        Live k.system ref (x ∷ zs)
        → AllAt k.system.sched.heap c (x ∷ zs)
        → Taken k.system ref (x ∷ zs) x zs
        → kept_of caller proc_name k.system.sched.heap x ≡ false
        → (s : System) × ((y : Ptr)
            → s.sched.heap y
              ≡ (if y == x then ended (k.system.sched.heap y) else k.system.sched.heap y))
          × GoesOn k n c zs (record { system = s; killed_count = suc k.killed_count })
    unfolding end_program deref set_pcb
    round_killed l same t e =
        let u = without end_program ref caller proc_name t in
        let frame = set_queue-frame k.system ref (some t.queue') in
        let s = set_pcb u x (ended (u.sched.heap x)) in
        let heap : (y : Ptr)
            → s.sched.heap y
              ≡ (if y == x then ended (k.system.sched.heap y) else k.system.sched.heap y) =
          λ y. ap (λ h. store h x (ended (h x)) y) frame.0 ∙ store-ended k.system.sched.heap x y in
        let alive : u.freed x ≡ false = ap (λ f. f x) frame.1 ∙ t.alive in
        (
          s,
          heap,
          record {
            live = record {
              queue = t.queue';
              there =
                  queue_at-set_pcb u ref x (ended (u.sched.heap x))
                  ∙ queue_at-set_queue k.system ref t.queue t.queue' t.there;
              valid = t.valid;
              holds = t.holds;
              alive = any_freed-false s.freed zs λ j p at.
                  ap (λ f. f p) frame.1 ∙ any_freed-at k.system.freed (x ∷ zs) (suc j) p l.alive at;
            };
            same = λ j p at.
                priority-ended (k.system.sched.heap p) (s.sched.heap p) (p == x) (heap p)
                ∙ same (suc j) p at;
            freed = frame.1;
            goes_on = kill_rounds-killed end_program ref caller proc_name k n t s e (rw alive);
          },
        )

  kill_rounds-Swept :
      (todo done : List Ptr) (k : Killed) (c : ℕ)
      → Live k.system ref (todo ++ done)
      → AllAt k.system.sched.heap c (todo ++ done)
      → (k' : Killed) × (rounds (length todo) k ≡ some k')
        × Swept k ref (kept_of caller proc_name k.system.sched.heap) todo done k'
  unfolding kill_rounds
  kill_rounds-Swept [] done k c l same = (
    k,
    refl,
    record {
      queue = l.queue;
      there = l.there;
      valid = l.valid;
      holds = l.holds ∙ sym (append_nil done);
      count = omega arith;
      heap = λ y. refl;
      freed = refl;
    },
  )
  kill_rounds-Swept (x ∷ rest) done k c l same =
      let t = oldest c l same in
      elim (Bool-cases (kept_of caller proc_name k.system.sched.heap x)) [
        | inl e ↦
            let (s, heap, go) = round_kept k (length rest) c x (rest ++ done) l same t e in
            let (k', e', w) =
              kill_rounds-Swept rest (done ++ (x ∷ [])) (record k { system = s }) c
                (subst (λ zs. Live s ref zs) (assoc rest done x) go.live)
                (subst (λ zs. AllAt s.sched.heap c zs) (assoc rest done x) go.same) in
            (k', go.goes_on ∙ e', Swept-kept ref caller proc_name e heap go.freed w)
        | inr e ↦
            let (s, heap, go) = round_killed k (length rest) c x (rest ++ done) l same t e in
            let (k', e', w) =
              kill_rounds-Swept rest done (record { system = s; killed_count = suc k.killed_count })
                c go.live go.same in
            (k', go.goes_on ∙ e', Swept-killed ref caller proc_name e heap go.freed w)
      ]

  -- Let the loop over the running list, or one that does the same to what it finds, start on a valid
  -- queue of processes that were not freed and have one `priority` number. Then it visits each once:
  -- those that it puts back, which are the caller, the processes of pid 0 and those of another path,
  -- stand in the queue in their order; every other one is out of the queue, counted, and has its
  -- program counter at the end of its code; no other process changes.
  pub kill_in-Swept :
      (k : Killed) (xs : List Ptr) (c : ℕ)
      → Live k.system ref xs
      → AllAt k.system.sched.heap c xs
      → (k' : Killed) × (kill_in end_program ref caller proc_name k ≡ some k')
        × Swept k ref (kept_of caller proc_name k.system.sched.heap) xs [] k'
  unfolding kill_in
  kill_in-Swept k xs c l same =
      let (k', e, w) =
        kill_rounds-Swept xs [] k c (subst (λ zs. Live k.system ref zs) (sym (append_nil xs)) l)
          (subst (λ zs. AllAt k.system.sched.heap c zs) (sym (append_nil xs)) same) in
      (k', ap (λ o. o >>= λ q. rounds q.size k) l.there ∙ ap (λ n. rounds n k) (Live-size l) ∙ e, w)
