-- ===== src/Killall/Live.antt =====
-- The queue that a loop of `__sys_killall` works on, and what one `dequeue` leaves of it.
use simple_32bit_os.Base.{
  ℕ, suc, ◌≤◌, ◌≡◌, ◌≢◌, refl, sym, ap, subst, ◌∙◌, false, inl, inr, Option, some, List, [], ◌∷◌,
  ◌++◌, arith, length, get_elem?, get_elem?-append, Bool-cases, leb, length-take,
}
use simple_32bit_os.Queue.{Ptr, Queue, max_queue_size, enqueue, dequeue}
use simple_32bit_os.Queue.Contents
use simple_32bit_os.Queue.Contents.{contents, get_elem?-remove_at, enqueue-contents}
use simple_32bit_os.Queue.Order.{Picks, dequeue-Picks}
use simple_32bit_os.Process.{QueueRef}
use simple_32bit_os.Sched.{priority_of}
use simple_32bit_os.System.{System, queue_at, set_queue, any_freed, take_from}
use simple_32bit_os.System.Frame.{
  queue_at-set_queue, set_queue-set_queue, set_queue-frame, any_freed-at, any_freed-false,
}

-- The pointer leads to a valid queue that holds the processes `xs`, none of which was freed.
pub record Live (s : System) (ref : Option QueueRef) (xs : List Ptr) : Type 0 where
  pub queue : Queue
  pub there : queue_at s ref ≡ some queue
  pub valid : Contents.IsValid queue
  pub holds : contents queue ≡ xs
  pub alive : any_freed s.freed xs ≡ false

-- The system with another queue behind the pointer, and nothing else changed.
pub record Rearranged (s : System) (ref : Option QueueRef) (ys : List Ptr) (t : System)
    : Type 0 where
  pub queue : Queue
  pub result : t ≡ set_queue s ref (some queue)
  pub valid : Contents.IsValid queue
  pub holds : contents queue ≡ ys

pub Live-size :
    {s : System} {ref : Option QueueRef} {xs : List Ptr} (l : Live s ref xs)
    → l.queue.size ≡ length xs
Live-size l =
    sym (length-take l.queue.size l.queue.proc (omega (arith, l.valid.slots, l.valid.bounded)))
    ∙ ap length l.holds

-- A round takes the first process of the lowest `priority` number out of the queue.
pub record Taken (s : System) (ref : Option QueueRef) (xs : List Ptr) (target : Ptr) (ys : List Ptr)
    : Type 0 where
  pub queue : Queue
  pub queue' : Queue
  pub there : queue_at s ref ≡ some queue
  pub result : take_from s queue ≡ some (some target, some queue')
  pub picks : Picks (priority_of s.sched) xs target ys
  pub valid : Contents.IsValid queue'
  pub holds : contents queue' ≡ ys
  pub room : suc queue'.size ≤ max_queue_size
  pub alive : s.freed target ≡ false

pub take_from-Taken :
    {s : System} {ref : Option QueueRef} {xs : List Ptr}
    → Live s ref xs
    → xs ≢ []
    → (x : Ptr) × (ys : List Ptr) × Taken s ref xs x ys
unfolding take_from
take_from-Taken {s} {ref} {xs} l ne =
    let size : l.queue.size ≢ 0 = λ e. ne (empty-nil xs (sym (Live-size l) ∙ e)) in
    let (x, q', e, picks, valid, shorter) = dequeue-Picks (priority_of s.sched) l.valid size in
    let taken_one : Picks (priority_of s.sched) xs x (contents q') =
      subst (λ zs. Picks (priority_of s.sched) zs x (contents q')) l.holds picks in
    let fresh : any_freed s.freed (contents l.queue) ≡ false = rw l.holds l.alive in
    (
      x,
      contents q',
      record {
        queue = l.queue;
        queue' = q';
        there = l.there;
        result = fresh_take fresh e;
        picks = taken_one;
        valid = valid;
        holds = refl;
        room = omega (arith, l.valid.bounded, shorter);
        alive = any_freed-at s.freed xs taken_one.index x l.alive taken_one.found;
      },
    )
  where
    fresh_take :
        {d : Option Ptr × Option Queue}
        → any_freed s.freed (contents l.queue) ≡ false
        → dequeue (priority_of s.sched) (some l.queue) ≡ d
        → take_from s l.queue ≡ some d
    fresh_take f e = elim (Bool-cases (leb 2 l.queue.size)) [
      | inl many ↦ rw (many, f, e)
      | inr few ↦ rw (few, e)
    ]

    empty-nil : (xs : List Ptr) → length xs ≡ 0 → xs ≡ []
    empty-nil [] e = refl
    empty-nil (x ∷ xs) e = absurd (omega arith)

-- Every process of `ys` is one of `xs`.
abbrev pub Inside : List Ptr → List Ptr → Type 0
Inside ys xs = (j : ℕ) (p : Ptr) → get_elem? ys j ≡ some p → (i : ℕ) × (get_elem? xs i ≡ some p)

pub Rearranged-Live :
    {s t : System} {ref : Option QueueRef} {xs ys : List Ptr}
    → Live s ref xs
    → Rearranged s ref ys t
    → Inside ys xs
    → Live t ref ys
Rearranged-Live {s} {t} {ref} {xs} {ys} l r inside = record {
  queue = r.queue;
  there = ap (λ u. queue_at u ref) r.result ∙ queue_at-set_queue s ref l.queue r.queue l.there;
  valid = r.valid;
  holds = r.holds;
  alive = any_freed-false t.freed ys λ j p at.
      let (i, at') = inside j p at in
      ap (λ u. u.freed p) r.result
      ∙ ap (λ f. f p) (set_queue-frame s ref (some r.queue)).1
      ∙ any_freed-at s.freed xs i p l.alive at';
}

pub Rearranged-Rearranged :
    {s t u : System} {ref : Option QueueRef} {ys zs : List Ptr}
    → Rearranged s ref ys t
    → Rearranged t ref zs u
    → Rearranged s ref zs u
Rearranged-Rearranged {s} {ref = ref} a b = record {
  queue = b.queue;
  result =
      b.result
      ∙ ap (λ t. set_queue t ref (some b.queue)) a.result
      ∙ set_queue-set_queue s ref a.queue b.queue;
  valid = b.valid;
  holds = b.holds;
}

pub Rearranged-heap :
    {s t : System} {ref : Option QueueRef} {ys : List Ptr}
    → Rearranged s ref ys t
    → t.sched.heap ≡ s.sched.heap
Rearranged-heap {s} {ref = ref} r =
    ap (λ u. u.sched.heap) r.result ∙ (set_queue-frame s ref (some r.queue)).0

-- Behind the others it is still one of the same processes.
pub again-Inside :
    {s : System} {ref : Option QueueRef} {xs ys : List Ptr} {x : Ptr} (t : Taken s ref xs x ys)
    → Inside (ys ++ (x ∷ [])) xs
again-Inside {xs = xs} {ys} {x} t j p at = elim (get_elem?-append ys x j p at) [
  | inl e ↦ (t.picks.index, t.picks.found ∙ ap some (sym e))
  | inr old ↦
      get_elem?-remove_at t.picks.index j xs p (ap (λ zs. get_elem? zs j) (sym t.picks.rest) ∙ old)
]

-- A process that is put back goes behind the others.
pub put_back :
    {s : System} {ref : Option QueueRef} {xs ys : List Ptr} {x : Ptr} (t : Taken s ref xs x ys)
    → (q : Queue) × (enqueue (some t.queue') (some x) ≡ some q)
      × Contents.IsValid q
      × (contents q ≡ ys ++ (x ∷ []))
put_back {x = x} t =
    let (q, e, valid, holds) = enqueue-contents {q = t.queue'} x t.valid in
    let room : leb max_queue_size t.queue'.size ≡ false = ground (arith, t.room) in
    (q, e, valid, holds ∙ rw (room, t.holds) refl)
