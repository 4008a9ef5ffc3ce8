-- ===== src/Killall/Blocked.antt =====
-- A loop of `__sys_killall` that never gets past one process.
use simple_32bit_os.Base.{
  ◌+◌, count, if◌then◌else◌, ℕ, zero, suc, ◌<◌, ◌≡◌, ◌≢◌, refl, sym, ap, ◌∙◌, true, false,
  Bool-cases, ==_iff, ◌==◌, subst, inl, inr, Option, some, List, [], ◌∷◌, ◌++◌, arith, length,
  get_elem?,
}
use simple_32bit_os.Queue.{Ptr}
use simple_32bit_os.Queue.Contents.{remove_at}
use simple_32bit_os.Process.{QueueRef}
use simple_32bit_os.Sched.{priority_of}
use simple_32bit_os.System.{System}
use simple_32bit_os.System.Frame.{set_queue-queue_at}
use simple_32bit_os.Killall.{Killed, is_kept, kill_rounds, kill_in}
use simple_32bit_os.Killall.Live.{
  Live, Rearranged, Taken, take_from-Taken, Rearranged-Live, Rearranged-Rearranged, Rearranged-heap,
  again-Inside, Live-size,
}
use simple_32bit_os.Killall.Rounds.{keeps, kill_rounds-kept}

-- `x` is among the processes, and every other one has a larger `priority` number.
pub record IsLowest (priority : Ptr → ℕ) (xs : List Ptr) (x : Ptr) : Type 0 where
  pub index : ℕ
  pub found : get_elem? xs index ≡ some x
  pub lower : (j : ℕ) (p : Ptr) → get_elem? xs j ≡ some p → p ≢ x → priority x < priority p

-- The first `x` goes behind the others.
abbrev pub remove : Ptr → List Ptr → List Ptr
remove x [] = []
remove x (y ∷ ys) = if y == x then ys else y ∷ remove x ys

abbrev pub to_back : Ptr → List Ptr → List Ptr
to_back x xs = remove x xs ++ (x ∷ [])

-- The queue after the given number of rounds, each of which takes `x` out and puts it back.
abbrev pub turned : ℕ → Ptr → List Ptr → List Ptr
turned zero x xs = xs
turned (suc n) x xs = turned n x (to_back x xs)

count-append : (p : Ptr) (xs ys : List Ptr) → count p (xs ++ ys) ≡ count p xs + count p ys
count-append p [] ys = omega arith
count-append p (x ∷ xs) ys = omega (arith, count-append p xs ys)

count-to_back :
    (p x : Ptr) (xs : List Ptr) (i : ℕ)
    → get_elem? xs i ≡ some x
    → count p (to_back x xs) ≡ count p xs
count-to_back p x xs i e = omega (arith, count-append p (remove x xs) (x ∷ []), removed xs i e)
  where
    removed :
        (xs : List Ptr) (i : ℕ)
        → get_elem? xs i ≡ some x
        → count p (remove x xs) + count p (x ∷ []) ≡ count p xs
    removed [] i e = cc
    removed (y ∷ ys) zero e =
        let same : y ≡ x = cc in
        let eq_x : (y == x) ≡ true = ground (arith, same) in
        let eq : count p (y ∷ []) ≡ count p (x ∷ []) = rw same refl in rw eq_x (omega (arith, eq))
    removed (y ∷ ys) (suc i) e = elim (Bool-cases (y == x)) [
      | inl eq_x ↦
          let eq : count p (y ∷ []) ≡ count p (x ∷ []) =
            ap (λ z. count p (z ∷ [])) ((==_iff y x).0 eq_x) in
          rw eq_x (omega (arith, eq))
      | inr ne_x ↦ rw ne_x (omega (arith, removed ys i e))
    ]

-- Where the first `x` stands.
remove_at-remove :
    (xs : List Ptr) (x : Ptr) (i : ℕ)
    → get_elem? xs i ≡ some x
    → ((j : ℕ) (p : Ptr) → get_elem? xs j ≡ some p → j < i → p ≢ x)
    → remove_at i xs ≡ remove x xs
remove_at-remove [] x i e first = cc
remove_at-remove (y ∷ ys) x zero e first =
    let same : y ≡ x = cc in let eq_x : (y == x) ≡ true = ground (arith, same) in rw eq_x refl
remove_at-remove (y ∷ ys) x (suc i) e first =
    let ne_x : (y == x) ≡ false = ground (arith, first 0 y refl (omega arith)) in
    rw ne_x
      (ap (λ zs. y ∷ zs) (remove_at-remove ys x i e λ j p at lt. first (suc j) p at (omega arith)))

none≢some : (i : ℕ) {x : Ptr} → get_elem? {A = Ptr} [] i ≡ some x → ⊥
none≢some i e = cc

found_last : (xs : List Ptr) (x : Ptr) → (i : ℕ) × (get_elem? (xs ++ (x ∷ [])) i ≡ some x)
found_last [] x = (0, refl)
found_last (y ∷ ys) x = let (i, e) = found_last ys x in (suc i, e)

module _ {s : System} {ref : Option QueueRef} {xs ys : List Ptr} {x y : Ptr} where
  lowest_taken : Taken s ref xs y ys → IsLowest (priority_of s.sched) xs x → y ≡ x
  lowest_taken t low = elim (Bool-cases (y == x)) [
    | inl e ↦ (==_iff y x).0 e
    | inr ne ↦ absurd (
        omega (
          arith,
          t.picks.least low.index x low.found,
          low.lower t.picks.index y t.picks.found (λ e. different e ne),
        ))
  ]
    where
      different : y ≡ x → (y == x) ≡ false → ⊥
      different e ne = ground arith

module _ {s : System} {ref : Option QueueRef} {xs ys : List Ptr} {x : Ptr} where
  -- What is left, with `x` behind it.
  again-to_back : (t : Taken s ref xs x ys) → ys ++ (x ∷ []) ≡ to_back x xs
  again-to_back t =
      ap (λ zs. zs ++ (x ∷ []))
        (t.picks.rest
          ∙ remove_at-remove xs x t.picks.index t.picks.found
              λ j p at lt e. omega (arith, t.picks.earlier j p at lt, ap (priority_of s.sched) e))

  again-IsLowest :
      (s' : System) (t : Taken s ref xs x ys)
      → s'.sched.heap ≡ s.sched.heap
      → IsLowest (priority_of s.sched) xs x
      → IsLowest (priority_of s'.sched) (ys ++ (x ∷ [])) x
  unfolding priority_of
  again-IsLowest s' t heap low =
      subst (λ h. IsLowest (λ p. (h p).priority) (ys ++ (x ∷ [])) x) (sym heap)
        (record {
          index = (found_last ys x).0;
          found = (found_last ys x).1;
          lower = λ j p at ne. let (i, at') = again-Inside t j p at in low.lower i p at' ne;
        })

module _ (kill : System → Ptr → Option System) (ref : Option QueueRef) (caller : Ptr)
    (proc_name : List ℕ) where
  -- Nobody was killed, and the system is the same but for the order in the queue: each of `n` rounds
  -- has put `x` behind the others.
  abbrev pub Unharmed : Killed → List Ptr → (x : Ptr) → (n : ℕ) → Option Killed → Type 0
  Unharmed k xs x n out =
      (s : System) × (out ≡ some (record k { system = s }))
      × Rearranged k.system ref (turned n x xs) s
      × ((p : Ptr) → count p (turned n x xs) ≡ count p xs)

  kill_rounds-blocked :
      (n : ℕ) (k : Killed) (xs : List Ptr) (x : Ptr)
      → Live k.system ref xs
      → IsLowest (priority_of k.system.sched) xs x
      → keeps kill ref caller proc_name k x ≡ true
      → Unharmed k xs x n (kill_rounds kill ref caller proc_name n k)
  unfolding kill_rounds
  kill_rounds-blocked zero k xs x l low kept = (
    k.system,
    refl,
    record {
      queue = l.queue;
      result = sym (set_queue-queue_at k.system ref l.queue l.there);
      valid = l.valid;
      holds = l.holds;
    },
    λ p. refl,
  )
  kill_rounds-blocked (suc n) k xs x l low kept =
      let (y, ys, t) = take_from-Taken l (nonempty low) in
      let t' : Taken k.system ref xs x ys =
        subst (λ z. Taken k.system ref xs z ys) (lowest_taken t low) t in
      let (s, r, e) = kill_rounds-kept kill ref caller proc_name k n t' kept in
      let heap = Rearranged-heap r in
      let back = again-to_back t' in
      let (u, e', r', same) =
        kill_rounds-blocked n (record k { system = s }) (to_back x xs) x
          (subst (Live s ref) back (Rearranged-Live l r (again-Inside t')))
          (subst (λ zs. IsLowest (priority_of s.sched) zs x) back (again-IsLowest s t' heap low))
          (keeps_same s heap) in
      (
        u,
        e ∙ e',
        Rearranged-Rearranged r r',
        λ p. same p ∙ count-to_back p x xs low.index low.found,
      )
    where
      nonempty : IsLowest (priority_of k.system.sched) xs x → xs ≢ []
      nonempty low e = none≢some low.index (ap (λ zs. get_elem? zs low.index) (sym e) ∙ low.found)

      keeps_same :
          (s : System)
          → s.sched.heap ≡ k.system.sched.heap
          → keeps kill ref caller proc_name (record k { system = s }) x ≡ true
      keeps_same s heap = ap (λ h. is_kept caller proc_name x (h x)) heap ∙ kept

  -- Let a loop start on a valid queue of processes that were not freed. If one of them is put back
  -- and every other has a larger `priority` number, then the loop ends, and every round takes that one
  -- out and puts it behind the others. Nobody is killed, whatever the paths are; the queue holds what
  -- it held, each process as often, and everything else in the system is as before.
  pub kill_in-blocked :
      (k : Killed) (xs : List Ptr) (x : Ptr)
      → Live k.system ref xs
      → IsLowest (priority_of k.system.sched) xs x
      → is_kept caller proc_name x (k.system.sched.heap x) ≡ true
      → Unharmed k xs x (length xs) (kill_in kill ref caller proc_name k)
  unfolding kill_in
  kill_in-blocked k xs x l low kept =
      subst (λ n. Unharmed k xs x n (kill_in kill ref caller proc_name k)) (Live-size l)
        (rw l.there (kill_rounds-blocked l.queue.size k xs x l low kept))
