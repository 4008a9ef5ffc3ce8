-- ===== src/Sched/Refine.antt =====
-- The scheduler as an abstract machine: for each `prio` the processes that wait, oldest first.
use simple_32bit_os.Base.{
  ℕ, zero, suc, ◌<◌, ◌≡◌, refl, sym, ap, subst, fun_ext, ◌∙◌, inl, inr, false, Bool-cases, Option,
  none, some, List, [], ◌∷◌, ◌++◌, arith, length, get_elem?, get_or, set, ==_iff, ◌==◌, leb,
  if◌then◌else◌, get_or-set_self, get_or-set_ne, get_elem?-lt, length-take, ◌>>=◌,
}
use simple_32bit_os.Queue.{Ptr, Queue, max_queue_size}
use simple_32bit_os.Queue.Contents.{contents}
use simple_32bit_os.Queue.Order.{Picks}
use simple_32bit_os.Sched.{Sched, max_prio, account, priority_of, get_mlq_proc, put_proc}
use simple_32bit_os.Sched.Get.{Got, get_mlq_proc-Got}
use simple_32bit_os.Sched.Valid.{IsValid, account_frame, get_mlq_proc-IsValid}
use simple_32bit_os.Sched.Put.{prio_of, Enqueued, put_proc-Enqueued}

abbrev pub Ready : Type 0
Ready = ℕ → List Ptr

abbrev pub set_at : Ready → ℕ → List Ptr → Ready
set_at r i xs j = if j == i then xs else r j

-- What `get_mlq_proc` may return, and what waits afterwards.
pub data Serves (priority : Ptr → ℕ) (r : Ready) : Option Ptr → Ready → Type 0 where
  serve :
      (i : ℕ) (x : Ptr) (ys : List Ptr)
      → i < max_prio
      → ((j : ℕ) → j < i → r j ≡ [])
      → Picks priority (r i) x ys
      → Serves priority r (some x) (set_at r i ys)
  idle : ((j : ℕ) → j < max_prio → r j ≡ []) → Serves priority r none r

-- What `put_proc` of `p`, whose `prio` is `i`, may leave.
pub data Enters (i : ℕ) (p : Ptr) (r : Ready) : Ready → Type 0 where
  enter : length (r i) < max_queue_size → Enters i p r (set_at r i (r i ++ (p ∷ [])))
  drop_it : length (r i) ≡ max_queue_size → Enters i p r r

-- A queue that is not there.
abbrev no_queue : Queue
no_queue = record { proc = []; size = 0 }

pub waiting : List Queue → Ready
waiting qs i = contents (get_or qs i no_queue)

-- What the scheduler's arrays stand for.
abbrev pub view : Sched → Ready
view s = waiting s.mlq_ready_queue

waiting_at :
    (qs : List Queue) (i : ℕ) (q : Queue) → get_elem? qs i ≡ some q → waiting qs i ≡ contents q
unfolding waiting
waiting_at [] i q e = cc
waiting_at (x ∷ qs) zero q e = cc
waiting_at (x ∷ qs) (suc i) q e = waiting_at qs i q e

waiting-set :
    (qs : List Queue) (i : ℕ) (q : Queue)
    → i < length qs
    → waiting (set qs i q) ≡ set_at (waiting qs) i (contents q)
unfolding waiting
waiting-set qs i q lt = fun_ext λ j. elim (Bool-cases (j == i)) [
  | inl e ↦ rw (e, (==_iff j i).0 e, get_or-set_self qs i q no_queue lt) refl
  | inr e ↦ rw (e, get_or-set_ne qs i j q no_queue λ w. different w e) refl
]
  where
    different : {j : ℕ} → i ≡ j → (j == i) ≡ false → ⊥
    different w e = ground arith

set_at-same : (r : Ready) (i : ℕ) (xs : List Ptr) → xs ≡ r i → set_at r i xs ≡ r
set_at-same r i xs e = fun_ext λ j. elim (Bool-cases (j == i)) [
  | inl e' ↦ rw (e', e, (==_iff j i).0 e') refl
  | inr e' ↦ rw e' refl
]

waiting-empty :
    (qs : List Queue) (j : ℕ)
    → ((q : Queue) → get_elem? qs j ≡ some q → q.size ≡ 0)
    → waiting qs j ≡ []
unfolding waiting
waiting-empty [] j h = refl
waiting-empty (q ∷ qs) zero h = rw (h q refl) refl
waiting-empty (q ∷ qs) (suc j) h = waiting-empty qs j h

Got-Serves :
    {s : Sched} {out : Option Ptr × Sched}
    → IsValid s
    → Got s out
    → Serves (priority_of s) (view s) out.0 (view out.1)
Got-Serves {s} {out} v g =
    let lt : g.prio < length s.mlq_ready_queue =
      get_elem?-lt s.mlq_ready_queue g.prio g.queue g.at_prio in
    let after : view
          (account g.prio (record s { mlq_ready_queue = set s.mlq_ready_queue g.prio g.queue' }))
        ≡ set_at (view s) g.prio (contents g.queue') =
      ap waiting
        (account_frame g.prio
          (record s { mlq_ready_queue = set s.mlq_ready_queue g.prio g.queue' })).1
      ∙ waiting-set s.mlq_ready_queue g.prio g.queue' lt in
    subst (λ o. Serves (priority_of s) (view s) o.0 (view o.1)) (sym g.result)
      (subst (λ r. Serves (priority_of s) (view s) (some g.proc) r) (sym after)
        (Serves.serve g.prio g.proc (contents g.queue') (omega (arith, lt, v.queues))
          (λ j lt'. waiting-empty s.mlq_ready_queue j λ q at. g.first j q at lt')
          (subst (λ xs. Picks (priority_of s) xs g.proc (contents g.queue'))
            (sym (waiting_at s.mlq_ready_queue g.prio g.queue g.at_prio)) g.picks)))

get-Serves :
    (s : Sched)
    → IsValid s
    → Serves (priority_of s) (view s) (get_mlq_proc s).0 (view (get_mlq_proc s).1)
get-Serves s v = elim (get_mlq_proc-Got s v.arrays) [
  | inl g ↦ Got-Serves v g
  | inr (empty, e) ↦
      subst (λ o. Serves (priority_of s) (view s) o.0 (view o.1)) (sym e)
        (Serves.idle λ j lt. waiting-empty s.mlq_ready_queue j λ q at. empty j q at lt)
]

Enqueued-Enters :
    {s t : Sched} {p : Ptr} → IsValid s → Enqueued s p t → Enters (prio_of s p) p (view s) (view t)
Enqueued-Enters {s} {t} {p} v put =
    let i = prio_of s p in
    let q = put.queue in
    let lt = get_elem?-lt s.mlq_ready_queue i q put.at_prio in
    let here = waiting_at s.mlq_ready_queue i q put.at_prio in
    let valid = v.arrays i q put.at_prio in
    let size : length (view s i) ≡ q.size =
      ap length here ∙ length-take q.size q.proc (omega (arith, valid.slots, valid.bounded)) in
    let after : view t ≡ set_at (view s) i (contents put.queue') =
      ap waiting put.others ∙ waiting-set s.mlq_ready_queue i put.queue' lt in
    elim (Bool-cases (leb max_queue_size q.size)) [
      | inl full ↦
          let same : contents put.queue' ≡ view s i = put.behind ∙ rw full (sym here) in
          subst (λ r. Enters i p (view s) r)
            (sym (after ∙ set_at-same (view s) i (contents put.queue') same))
            (Enters.drop_it (ground (arith, size, valid.bounded)))
      | inr room ↦
          let more : contents put.queue' ≡ view s i ++ (p ∷ []) =
            put.behind ∙ rw (room, here) refl in
          subst (λ r. Enters i p (view s) r) (sym (after ∙ ap (λ xs. set_at (view s) i xs) more))
            (Enters.enter (ground (arith, size)))
    ]

-- A call on the scheduler.
pub data Call : Type 0 where
  get : Call
  put : Ptr → Call

-- A sequence of calls, and what the calls of `get_proc` return.
abbrev pub exec : List Call → Sched → Option (List (Option Ptr) × Sched)
exec [] s = some ([], s)
exec (Call.get ∷ cs) s = do
  rest ← exec cs (get_mlq_proc s).1
  some ((get_mlq_proc s).0 ∷ rest.0, rest.1)
exec (Call.put p ∷ cs) s = do t ← put_proc s p; exec cs t

-- The sequences that the abstract machine allows.
module _ (priority prio : Ptr → ℕ) where
  pub data Trace : Ready → List Call → List (Option Ptr) → Ready → Type 0 where
    over : {r : Ready} → Trace r [] [] r
    got :
        {r r' r'' : Ready} {o : Option Ptr} {cs : List Call} {outs : List (Option Ptr)}
        → Serves priority r o r'
        → Trace r' cs outs r''
        → Trace r (Call.get ∷ cs) (o ∷ outs) r''
    entered :
        {r r' r'' : Ready} {p : Ptr} {cs : List Call} {outs : List (Option Ptr)}
        → Enters (prio p) p r r'
        → Trace r' cs outs r''
        → Trace r (Call.put p ∷ cs) outs r''

-- No process is put with a `prio` of 140 or more.
abbrev pub InRange : (prio : Ptr → ℕ) → List Call → Type 0
InRange prio [] = Unit
InRange prio (Call.get ∷ cs) = InRange prio cs
InRange prio (Call.put p ∷ cs) = (prio p < max_prio) × InRange prio cs

get-heap : (s : Sched) → IsValid s → (get_mlq_proc s).1.heap ≡ s.heap
get-heap s v = elim (get_mlq_proc-Got s v.arrays) [
  | inl g ↦
      ap (λ o. o.1.heap) g.result
      ∙ (account_frame g.prio
          (record s { mlq_ready_queue = set s.mlq_ready_queue g.prio g.queue' })).0
  | inr (empty, e) ↦ ap (λ o. o.1.heap) e
]

-- From a valid scheduler every sequence of calls of `get_proc` and `put_proc`, in which no `prio` is
-- 140 or more, runs to its end without a fault. What it returns, and what then waits in the queues,
-- is what the abstract machine allows: a call of `get_proc` serves the lowest `prio` that has a
-- process, and there the first of the lowest `priority` number, and one of `put_proc` puts the process
-- behind the others of its `prio`, or drops it when there are ten. The scheduler stays valid.
pub exec-Trace :
    (cs : List Call) (s : Sched)
    → IsValid s
    → InRange (prio_of s) cs
    → (outs : List (Option Ptr)) × (t : Sched) × (exec cs s ≡ some (outs, t))
      × Trace (priority_of s) (prio_of s) (view s) cs outs (view t)
      × IsValid t
unfolding priority_of
exec-Trace [] s v h = ([], s, refl, Trace.over, v)
exec-Trace (Call.get ∷ cs) s v h =
    let u = (get_mlq_proc s).1 in
    let heap = get-heap s v in
    let prio_same : prio_of u ≡ prio_of s = ap (λ h p. (h p).prio) heap in
    let (outs, t, e, trace, valid) =
      exec-Trace cs u (get_mlq_proc-IsValid v) (subst (λ f. InRange f cs) (sym prio_same) h) in
    (
      (get_mlq_proc s).0 ∷ outs,
      t,
      rw e refl,
      Trace.got (get-Serves s v) (
          subst (λ k. Trace (λ p. (k p).priority) (λ p. (k p).prio) (view u) cs outs (view t)) heap
            trace),
      valid,
    )
exec-Trace (Call.put p ∷ cs) s v (lt, h) =
    let (u, e, valid, added) = put_proc-Enqueued {s = s} p v lt in
    let prio_same : prio_of u ≡ prio_of s = fun_ext added.same_prio in
    let priority_same : priority_of u ≡ priority_of s = fun_ext added.same_priority in
    let (outs, t, e', trace, valid') =
      exec-Trace cs u valid (subst (λ f. InRange f cs) (sym prio_same) h) in
    let trace' = subst (λ f. Trace (priority_of u) f (view u) cs outs (view t)) prio_same trace in
    (
      outs,
      t,
      rw (e, e') refl,
      Trace.entered (Enqueued-Enters v added)
          (subst (λ f. Trace f (prio_of s) (view u) cs outs (view t)) priority_same trace'),
      valid',
    )
