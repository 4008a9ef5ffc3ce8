-- ===== src/Killall/Programs.antt =====
-- What `__sys_killall` may change in a control block.
use simple_32bit_os.Base.{
  if◌then◌else◌, ℕ, zero, suc, ◌≡◌, ◌≢◌, ==_self, refl, sym, ap, ◌∙◌, Bool-cases, ◌==◌, ==_iff,
  true, false, inl, inr, Option, none, some, List, Holds, Holds-bind, Holds-some, some-Holds,
  length,
}
use simple_32bit_os.Libmem.Alloc.{libfree}
use simple_32bit_os.Queue.{Ptr, Queue, enqueue}
use simple_32bit_os.Process.{Pcb, Heap, QueueRef, store}
use simple_32bit_os.Syscall.{Regs}
use simple_32bit_os.System.{
  System, deref, set_pcb, caller_of, with_caller, free_pcb, queue_at, set_queue, take_from,
}
use simple_32bit_os.System.Frame.{set_queue-frame}
use simple_32bit_os.Killall.{
  Killed, is_kept, visit, after_dequeue, kill_rounds, kill_in, end_program, release, read_name,
  full_name, name_size, sys_killall,
}

-- Every control block has kept its fields, but for the program counter.
abbrev pub SamePrograms : Heap → Heap → Type 0
SamePrograms h h' = (p : Ptr) → h' p ≡ record (h p) { pc = (h' p).pc }

pub SamePrograms-refl : (h h' : Heap) → h' ≡ h → SamePrograms h h'
SamePrograms-refl h h' e p = rw e refl

pub SamePrograms-trans :
    (h h' h'' : Heap) → SamePrograms h h' → SamePrograms h' h'' → SamePrograms h h''
SamePrograms-trans h h' h'' a b p = b p ∙ same_but_pc (h p) (h' p) (h'' p).pc (a p)
  where
    same_but_pc :
        (c c' : Pcb) (pc : ℕ)
        → c' ≡ record c { pc = c'.pc }
        → record c' { pc = pc } ≡ record c { pc = pc }
    same_but_pc c c' pc e = ap {A = Pcb} (λ d. record d { pc = pc }) e

-- `store` of a block whose program counter was moved.
pub SamePrograms-store :
    (h : Heap) (p : Ptr) (pc : ℕ) → SamePrograms h (store h p (record (h p) { pc = pc }))
SamePrograms-store h p pc x = elim (Bool-cases (x == p)) [
  | inl e ↦ rw (e, (==_iff x p).0 e) refl
  | inr e ↦ rw e refl
]

-- And the block of the caller has kept that, too, and was not freed.
abbrev pub KeepsPrograms : (caller : Ptr) → System → System → Type 0
KeepsPrograms caller s t =
    SamePrograms s.sched.heap t.sched.heap
    × (t.sched.heap caller ≡ s.sched.heap caller)
    × (t.freed caller ≡ s.freed caller)

module _ (caller : Ptr) (s t : System) where
  pub keeps_heap :
      t.sched.heap ≡ s.sched.heap → t.freed caller ≡ s.freed caller → KeepsPrograms caller s t
  keeps_heap e f = (SamePrograms-refl s.sched.heap t.sched.heap e, ap (λ h. h caller) e, f)

  pub keeps_both :
      (u : System) → KeepsPrograms caller s t → KeepsPrograms caller t u → KeepsPrograms caller s u
  keeps_both u a b =
      (SamePrograms-trans s.sched.heap t.sched.heap u.sched.heap a.0 b.0, b.1 ∙ a.1, b.2 ∙ a.2)

is_kept_self :
    (caller : Ptr) (proc_name : List ℕ) (c : Pcb) → is_kept caller proc_name caller c ≡ true
unfolding is_kept
is_kept_self caller proc_name c = elim (Bool-cases (c.pid == 0)) [
  | inl e ↦ rw e refl
  | inr e ↦ rw (e, ==_self caller) refl
]

not_kept :
    (caller : Ptr) (proc_name : List ℕ) (target : Ptr) (c : Pcb)
    → is_kept caller proc_name target c ≡ false
    → target ≢ caller
not_kept caller proc_name target c e is =
    true≢false
      (sym (is_kept_self caller proc_name c) ∙ ap (λ p. is_kept caller proc_name p c) (sym is) ∙ e)
  where
    true≢false : true ≡ false → ⊥
    true≢false e = cc

module _ (kill : System → Ptr → Option System) (queue : Option QueueRef) (caller : Ptr)
    (proc_name : List ℕ)
    (kill_keeps : (s : System) (p : Ptr)
      → p ≢ caller
      → Holds (KeepsPrograms caller s) (kill s p)) where
  abbrev After : Killed → Killed → Type 0
  After k k' = KeepsPrograms caller k.system k'.system

  set_queue-Keeps : (s : System) (q : Option Queue) → KeepsPrograms caller s (set_queue s queue q)
  set_queue-Keeps s q =
      keeps_heap caller s (set_queue s queue q) (set_queue-frame s queue q).0
        (ap (λ f. f caller) (set_queue-frame s queue q).1)

  visit-Keeps :
      (k : Killed) (target : Ptr) → Holds (After k) (visit kill queue caller proc_name k target)
  unfolding visit
  visit-Keeps k target = Holds-bind (After k) (deref k.system target) _ λ c e.
      Holds-bind (After k) (queue_at k.system queue) _ λ q e'.
        elim (Bool-cases (is_kept caller proc_name target c)) [
          | inl kept ↦ rw kept (set_queue-Keeps k.system (enqueue (some q) (some target)))
          | inr gone ↦ rw gone (
              Holds-bind (After k) (kill k.system target) _ λ s e.
                Holds-some (KeepsPrograms caller k.system)
                  (kill_keeps k.system target (not_kept caller proc_name target c gone)) e)
        ]

  after_dequeue-Keeps :
      (k : Killed) (d : Option Ptr × Option Queue)
      → Holds (After k) (after_dequeue kill queue caller proc_name k d)
  unfolding after_dequeue
  after_dequeue-Keeps k (none, q) = set_queue-Keeps k.system q
  after_dequeue-Keeps k (some target, q) =
      let s = set_queue k.system queue q in
      some-Holds (After k) (visit kill queue caller proc_name (record k { system = s }) target)
        λ k' e. keeps_both caller k.system s k'.system (set_queue-Keeps k.system q) (
          Holds-some (After (record k { system = s }))
            (visit-Keeps (record k { system = s }) target) e)

  kill_rounds-Keeps :
      (n : ℕ) (k : Killed) → Holds (After k) (kill_rounds kill queue caller proc_name n k)
  unfolding kill_rounds
  kill_rounds-Keeps zero k = keeps_heap caller k.system k.system refl refl
  kill_rounds-Keeps (suc n) k = Holds-bind (After k) (queue_at k.system queue) _ λ q e.
      Holds-bind (After k) (take_from k.system q) _ λ d e'.
        Holds-bind (After k) (after_dequeue kill queue caller proc_name k d) _ λ k' e''.
          some-Holds (After k) (kill_rounds kill queue caller proc_name n k') λ k'' e3.
            keeps_both caller k.system k'.system k''.system
              (Holds-some (After k) (after_dequeue-Keeps k d) e'')
              (Holds-some (After k') (kill_rounds-Keeps n k') e3)

  kill_in-Keeps : (k : Killed) → Holds (After k) (kill_in kill queue caller proc_name k)
  unfolding kill_in
  kill_in-Keeps k =
      Holds-bind (After k) (queue_at k.system queue) _ λ q e. kill_rounds-Keeps q.size k

end_program-Keeps :
    (caller : Ptr) (s : System) (p : Ptr)
    → p ≢ caller
    → Holds (KeepsPrograms caller s) (end_program s p)
unfolding end_program deref set_pcb
end_program-Keeps caller s p ne = elim (Bool-cases (s.freed p)) [
  | inl gone ↦ rw gone tt
  | inr alive ↦
      rw alive (SamePrograms-store s.sched.heap p (length (s.sched.heap p).text), other, refl)
]
  where
    other :
        store s.sched.heap p (record (s.sched.heap p) { pc = length (s.sched.heap p).text }) caller
        ≡ s.sched.heap caller
    other = elim (Bool-cases (caller == p)) [
      | inl e ↦ absurd (ne (sym ((==_iff caller p).0 e)))
      | inr e ↦ rw e refl
    ]

release-Keeps :
    (caller : Ptr) (memrg : ℕ) (s : System) (p : Ptr)
    → p ≢ caller
    → Holds (KeepsPrograms caller s) (release memrg s p)
unfolding release with_caller free_pcb
release-Keeps caller memrg s p ne =
    Holds-bind (KeepsPrograms caller s) (caller_of s p) _ λ c e.
      Holds-bind (KeepsPrograms caller s) (libfree c memrg) _ λ r e'. (λ x. refl, refl, spared)
  where
    spared : (if caller == p then true else s.freed caller) ≡ s.freed caller
    spared = elim (Bool-cases (caller == p)) [
      | inl e ↦ absurd (ne (sym ((==_iff caller p).0 e)))
      | inr e ↦ rw e refl
    ]

-- Whatever it finds, `__sys_killall` changes nothing in any control block but the program counter,
-- and nothing in that of its caller.
pub sys_killall-Keeps :
    (s : System) (caller : Ptr) (regs : Regs)
    → Holds (λ k. KeepsPrograms caller s k.system) (sys_killall s caller regs)
unfolding sys_killall with_caller
sys_killall-Keeps s caller regs =
    let Q : Killed → Type 0 = λ k. KeepsPrograms caller s k.system in
    Holds-bind Q (caller_of s caller) _ λ c e1.
      Holds-bind Q (read_name name_size c regs.a1 0) _ λ name e2.
        Holds-bind Q (full_name name.1) _ λ proc_name e3.
          Holds-bind Q (deref (with_caller s caller name.0) caller) _ λ pcb e4.
            Holds-bind Q (kill_in end_program pcb.running_list caller proc_name _) _ λ running e5.
              Holds-bind Q (kill_in (release regs.a1) pcb.mlq_ready_queue caller proc_name running)
                _
                λ ready e6. Holds-bind Q (caller_of ready.system caller) _ λ c' e7.
                  Holds-bind Q (libfree c' regs.a1) _ λ r e8.
                    keeps_both caller s running.system ready.system
                      (Holds-some (λ k. KeepsPrograms caller (with_caller s caller name.0) k.system)
                        (kill_in-Keeps end_program pcb.running_list caller proc_name
                          (end_program-Keeps caller) _)
                        e5)
                      (Holds-some (λ k. KeepsPrograms caller running.system k.system)
                        (kill_in-Keeps (release regs.a1) pcb.mlq_ready_queue caller proc_name
                          (release-Keeps caller regs.a1) running)
                        e6)
