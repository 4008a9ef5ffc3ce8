-- ===== src/Loader/Names.antt =====
-- The words that the loader knows, and the name under which `__sys_killall` finds a process.
use simple_32bit_os.Base.{
  ℕ, ◌*◌, ◌≡◌, ◌≢◌, refl, ap, ◌∙◌, Bool, not, ◌||◌, true, false, inl, inr, Bool-cases, none, some,
  List, ◌++◌, ◌==◌, leb, if◌then◌else◌, length, take, arith, ◌↔◌, ◌⊎◌, Holds, Holds-bind,
  Holds-some, Option,
}
use simple_32bit_os.Queue.{Ptr}
use simple_32bit_os.Process.{Pcb, Inst, Opcode}
use simple_32bit_os.Killall.{same_text, is_kept, proc_dir}
use simple_32bit_os.Killall.Names.{same_text_iff, same_text-take}
use simple_32bit_os.Loader.{
  Stdio, Outcome, opt_calc, opt_alloc, opt_free, opt_read, opt_write, opt_syscall, get_opcode,
  sizeof_pointer, fresh_text, loaded, load_text, read_size, or_junk, load_file, load_opened, load,
}

-- How an opcode is written.
abbrev pub word_of : Opcode → List ℕ
word_of Opcode.calc = opt_calc
word_of Opcode.alloc = opt_alloc
word_of Opcode.free = opt_free
word_of Opcode.read = opt_read
word_of Opcode.write = opt_write
word_of Opcode.syscall = opt_syscall

get_opcode-word_of : (o : Opcode) → get_opcode (word_of o) ≡ Outcome.returned o
unfolding get_opcode same_text
get_opcode-word_of Opcode.calc = refl
get_opcode-word_of Opcode.alloc = refl
get_opcode-word_of Opcode.free = refl
get_opcode-word_of Opcode.read = refl
get_opcode-word_of Opcode.write = refl
get_opcode-word_of Opcode.syscall = refl

-- What `get_opcode` says of a text.
abbrev Known : List ℕ → Outcome Opcode → Type 0
Known opt out =
    ((o : Opcode) × (out ≡ Outcome.returned o) × (opt ≡ word_of o)) ⊎ (out ≡ Outcome.exited)

get_opcode-Known : (opt : List ℕ) → Known opt (get_opcode opt)
unfolding get_opcode
get_opcode-Known opt = tried Opcode.calc _ (
    tried Opcode.alloc _ (
      tried Opcode.free _
        (tried Opcode.read _ (tried Opcode.write _ (tried Opcode.syscall _ (inr refl))))))
  where
    tried :
        (o : Opcode) (rest : Outcome Opcode)
        → Known opt rest
        → Known opt (if same_text opt (word_of o) then Outcome.returned o else rest)
    tried o rest k = elim (Bool-cases (same_text opt (word_of o))) [
      | inl e ↦ rw e (inl (o, refl, (same_text_iff opt (word_of o)).0 e))
      | inr e ↦ rw e k
    ]

-- `get_opcode` knows each opcode by its word, and ends the program on every other text.
pub get_opcode_iff :
    (opt : List ℕ) (o : Opcode) → (get_opcode opt ≡ Outcome.returned o) ↔ (opt ≡ word_of o)
get_opcode_iff opt o = (
  λ e. elim (get_opcode-Known opt) [ inl (o', e', w) ↦ cc | inr e' ↦ cc ],
  λ e. ap get_opcode e ∙ get_opcode-word_of o,
)

-- What a control block that `load` returns has of the path.
abbrev Named : ℕ → List ℕ → Outcome (Pcb × ℕ) → Type 0
Named avail_pid path Outcome.exited = Unit
Named avail_pid path (Outcome.returned (c, next)) =
    (c.path ≡ take (2 * sizeof_pointer) path) × (c.pid ≡ avail_pid)

loaded-Named :
    (avail_pid : ℕ) (path : List ℕ) (c : Pcb) (text : Outcome (List Inst))
    → (c.path ≡ take (2 * sizeof_pointer) path)
    → c.pid ≡ avail_pid
    → Named avail_pid path (loaded avail_pid c text)
unfolding loaded
loaded-Named avail_pid path c Outcome.exited e e' = tt
loaded-Named avail_pid path c (Outcome.returned text) e e' = (e, e')

module _ (io : Stdio) (avail_pid : ℕ) (junk : Pcb) (junk_size : ℕ) (junk_text : ℕ → Inst)
    (path : List ℕ) where
  load_opened-Named :
      (file : Option io.File)
      → Holds (Named avail_pid path) (load_opened io avail_pid junk junk_size junk_text path file)
  unfolding load_opened load_file
  load_opened-Named none = tt
  load_opened-Named (some file) =
      let (priority, file1) = io.scan_number file in
      let (size, file2) = read_size io priority file1 in
      Holds-bind (Named avail_pid path)
        (load_text io (fresh_text junk_text (or_junk size junk_size) 0) none none file2) _
        λ text e.
          loaded-Named avail_pid path
            (record junk {
              pid = avail_pid;
              pc = 0;
              path = take (2 * sizeof_pointer) path;
              priority = or_junk priority junk.priority;
            })
            text refl refl

  -- A process that was loaded under a pid that is not 0, from a path that is the directory of the programs
  -- and a name, is judged by the test of `__sys_killall` for another caller that asks for that name: it is
  -- to be put back exactly when the name has more than five characters, because `load` cuts off its path.
  pub is_kept-load :
      (name : List ℕ) (c : Pcb) (next : ℕ) (caller target : Ptr)
      → path ≡ proc_dir ++ name
      → load io avail_pid junk junk_size junk_text path ≡ some (Outcome.returned (c, next))
      → avail_pid ≢ 0
      → target ≢ caller
      → is_kept caller path target c ≡ not (leb (length name) 5)
  unfolding load is_kept
  is_kept-load name c next caller target at e pid other =
      let (cut, same) = Holds-some (Named avail_pid path) (load_opened-Named (io.fopen path)) e in
      let text : same_text c.path path ≡ leb (length name) 5 =
        ap (λ p. same_text p path) cut
        ∙ same_text-take 16 path
        ∙ ap (λ p. leb (length p) 16) at
        ∙ ground arith in
      let alive : (c.pid == 0 || target == caller) ≡ false = ground arith in
      rw (alive, text) (if_not (leb (length name) 5))
    where
      if_not : (b : Bool) → (if b then false else true) ≡ not b
      if_not true = refl
      if_not false = refl
