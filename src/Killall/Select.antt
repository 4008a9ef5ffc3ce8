-- ===== src/Killall/Select.antt =====
-- What a loop of `__sys_killall` leaves of the processes that it visits.
use simple_32bit_os.Base.{
  ℕ, suc, ◌+◌, ◌≡◌, refl, ap, ap₂, ◌∙◌, Bool, true, false, not, Bool-cases, inl, inr, Option, some,
  List, [], ◌∷◌, ◌++◌, arith, length, get_elem?, ◌==◌, if◌then◌else◌,
}
use simple_32bit_os.Queue.{Ptr, Queue}
use simple_32bit_os.Queue.Contents
use simple_32bit_os.Queue.Contents.{contents, remove_at}
use simple_32bit_os.Process.{Pcb, Heap, QueueRef}
use simple_32bit_os.System.{System, queue_at}
use simple_32bit_os.Killall.{Killed, is_kept}

-- The processes that pass a test, in their order.
abbrev pub select : (Ptr → Bool) → List Ptr → List Ptr
select f [] = []
select f (x ∷ xs) = if f x then x ∷ select f xs else select f xs

abbrev pub is_in : List Ptr → Ptr → Bool
is_in [] y = false
is_in (x ∷ xs) y = if y == x then true else is_in xs y

-- A process whose program counter stands at the end of its code.
abbrev pub ended : Pcb → Pcb
ended c = record c { pc = length c.text }

abbrev pub AllAt : Heap → ℕ → List Ptr → Type 0
AllAt h c xs = (j : ℕ) (p : Ptr) → get_elem? xs j ≡ some p → (h p).priority ≡ c

select-cong :
    (f g : Ptr → Bool) (xs : List Ptr) → ((y : Ptr) → f y ≡ g y) → select f xs ≡ select g xs
select-cong f g [] h = refl
select-cong f g (x ∷ xs) h = rw (h x, select-cong f g xs h) refl

pub append_nil : (xs : List Ptr) → xs ++ [] ≡ xs
append_nil [] = refl
append_nil (x ∷ xs) = ap (λ ys. x ∷ ys) (append_nil xs)

pub assoc : (xs ys : List Ptr) (x : Ptr) → (xs ++ ys) ++ (x ∷ []) ≡ xs ++ (ys ++ (x ∷ []))
assoc [] ys x = refl
assoc (z ∷ xs) ys x = ap (λ zs. z ∷ zs) (assoc xs ys x)

assoc_cons : (xs ys : List Ptr) (x : Ptr) → (xs ++ (x ∷ [])) ++ ys ≡ xs ++ (x ∷ ys)
assoc_cons [] ys x = refl
assoc_cons (z ∷ xs) ys x = ap (λ zs. z ∷ zs) (assoc_cons xs ys x)

-- What a loop leaves of the processes `todo`, which it visits, and `done`, which it does not.
pub record Swept (k : Killed) (ref : Option QueueRef) (kept : Ptr → Bool) (todo done : List Ptr)
    (k' : Killed) : Type 0 where
  pub queue : Queue
  pub there : queue_at k'.system ref ≡ some queue
  pub valid : Contents.IsValid queue
  pub holds : contents queue ≡ done ++ select kept todo
  pub count : k'.killed_count ≡ k.killed_count + length (select (λ y. not (kept y)) todo)
  pub heap :
      (y : Ptr)
      → k'.system.sched.heap y ≡ (
          if is_in (select (λ y. not (kept y)) todo) y
          then ended (k.system.sched.heap y)
          else k.system.sched.heap y)
  pub freed : k'.system.freed ≡ k.system.freed

abbrev pub kept_of : (caller : Ptr) (proc_name : List ℕ) → Heap → Ptr → Bool
kept_of caller proc_name h y = is_kept caller proc_name y (h y)

module _ (ref : Option QueueRef) (caller : Ptr) (proc_name : List ℕ) where
  -- The rest of a loop that has put `x` back.
  pub Swept-kept :
      {k : Killed} {s : System} {rest done : List Ptr} {x : Ptr} {k' : Killed}
      → kept_of caller proc_name k.system.sched.heap x ≡ true
      → s.sched.heap ≡ k.system.sched.heap
      → s.freed ≡ k.system.freed
      → Swept
          (record k { system = s })
          ref
          (kept_of caller proc_name s.sched.heap)
          rest
          (done ++ (x ∷ []))
          k'
      → Swept k ref (kept_of caller proc_name k.system.sched.heap) (x ∷ rest) done k'
  Swept-kept {k} {s} {rest} {done} {x} {k'} e heap freed w =
      let same : (y : Ptr)
          → kept_of caller proc_name s.sched.heap y
            ≡ kept_of caller proc_name k.system.sched.heap y =
        λ y. ap (λ h. kept_of caller proc_name h y) heap in
      let dropped =
        select-cong (λ y. not (kept_of caller proc_name s.sched.heap y))
          (λ y. not (kept_of caller proc_name k.system.sched.heap y)) rest (λ y. ap not (same y)) in
      record {
        queue = w.queue;
        there = w.there;
        valid = w.valid;
        holds = rw e (
            w.holds
            ∙ assoc_cons done (select (kept_of caller proc_name s.sched.heap) rest) x
            ∙ ap (λ zs. done ++ (x ∷ zs))
                (select-cong (kept_of caller proc_name s.sched.heap)
                  (kept_of caller proc_name k.system.sched.heap) rest same));
        count = rw e (w.count ∙ ap (λ zs. k.killed_count + length zs) dropped);
        heap = λ y.
            rw e (w.heap y ∙ ap₂ (λ zs h. if is_in zs y then ended (h y) else h y) dropped heap);
        freed = w.freed ∙ freed;
      }

  ended_same :
      (x y : Ptr) (c c' : Pcb)
      → c' ≡ (if y == x then ended c else c)
      → is_kept caller proc_name y c' ≡ is_kept caller proc_name y c
  unfolding is_kept
  ended_same x y c c' h = elim (Bool-cases (y == x)) [
    | inl is ↦ rw (h, is) refl
    | inr not ↦ rw (h, not) refl
  ]

  ended_again :
      (x y : Ptr) (b : Bool) (c c' : Pcb)
      → c' ≡ (if y == x then ended c else c)
      → (if b then ended c' else c') ≡ (if (if y == x then true else b) then ended c else c)
  ended_again x y true c c' h = elim (Bool-cases (y == x)) [
    | inl is ↦ rw (h, is) refl
    | inr not ↦ rw (h, not) refl
  ]
  ended_again x y false c c' h = elim (Bool-cases (y == x)) [
    | inl is ↦ rw (h, is) refl
    | inr not ↦ rw (h, not) refl
  ]

  -- The rest of a loop that has ended `x`.
  pub Swept-killed :
      {k : Killed} {s : System} {rest done : List Ptr} {x : Ptr} {k' : Killed}
      → kept_of caller proc_name k.system.sched.heap x ≡ false
      → ((y : Ptr)
          → s.sched.heap y
            ≡ (if y == x then ended (k.system.sched.heap y) else k.system.sched.heap y))
      → s.freed ≡ k.system.freed
      → Swept
          (record { system = s; killed_count = suc k.killed_count })
          ref
          (kept_of caller proc_name s.sched.heap)
          rest
          done
          k'
      → Swept k ref (kept_of caller proc_name k.system.sched.heap) (x ∷ rest) done k'
  Swept-killed {k} {s} {rest} {done} {x} {k'} e heap freed w =
      let same : (y : Ptr)
          → kept_of caller proc_name s.sched.heap y
            ≡ kept_of caller proc_name k.system.sched.heap y =
        λ y. ended_same x y (k.system.sched.heap y) (s.sched.heap y) (heap y) in
      let dropped =
        select-cong (λ y. not (kept_of caller proc_name s.sched.heap y))
          (λ y. not (kept_of caller proc_name k.system.sched.heap y)) rest (λ y. ap not (same y)) in
      record {
        queue = w.queue;
        there = w.there;
        valid = w.valid;
        holds = rw e (
            w.holds
            ∙ ap (λ zs. done ++ zs)
                (select-cong (kept_of caller proc_name s.sched.heap)
                  (kept_of caller proc_name k.system.sched.heap) rest same));
        count = rw e (w.count ∙ omega (arith, ap length dropped));
        heap = λ y. rw e (
            w.heap y
            ∙ ap (λ zs. if is_in zs y then ended (s.sched.heap y) else s.sched.heap y) dropped
            ∙ ended_again x y
                (is_in (select (λ y. not (kept_of caller proc_name k.system.sched.heap y)) rest) y)
                (k.system.sched.heap y) (s.sched.heap y) (heap y));
        freed = w.freed ∙ freed;
      }
