-- ===== src/Loader.antt =====
-- src/loader.c: a program file becomes a control block. What the C library does with the file is a
-- parameter. `none` is undefined behaviour: a word of ten or more characters, which does not fit in
-- `opcode`, or the use of `opcode` or `buf` before it was set.
pub mod Names
mod Tests
use simple_32bit_os.Base.{
  ℕ, zero, suc, ◌+◌, ◌*◌, Bool, Option, none, some, List, [], ◌∷◌, ◌==◌, leb, if◌then◌else◌, length,
  take, u32, ◌>>=◌,
}
use simple_32bit_os.Queue.{Ptr}
use simple_32bit_os.Process.{Pcb, Inst, Opcode}
use simple_32bit_os.Killall.{same_text}

-- The C library on an open file: each reads something, or not, and leaves the file further on. What
-- "%u" and "%d" read is a word of 32 bits, and what "%lu" reads, `scan_long`, one of 64.
pub record Stdio : Type 1 where
  pub File : Type 0
  pub fopen : (path : List ℕ) → Option File
  pub scan_word : File → Option (List ℕ) × File
  pub scan_number : File → Option ℕ × File
  pub scan_long : File → Option ℕ × File
  pub skip_space : File → File
  pub fgets : (size : ℕ) → File → Option (List ℕ) × File
  pub sscan_numbers : (count : ℕ) → List ℕ → List ℕ

-- `exit(1)`, or a result.
pub data Outcome {ℓ} (A : Type ℓ) : Type ℓ where
  exited : Outcome A
  returned : A → Outcome A

-- The words of `get_opcode`.
abbrev pub opt_calc : List ℕ
opt_calc = 99 ∷ 97 ∷ 108 ∷ 99 ∷ []

abbrev pub opt_alloc : List ℕ
opt_alloc = 97 ∷ 108 ∷ 108 ∷ 111 ∷ 99 ∷ []

abbrev pub opt_free : List ℕ
opt_free = 102 ∷ 114 ∷ 101 ∷ 101 ∷ []

abbrev pub opt_read : List ℕ
opt_read = 114 ∷ 101 ∷ 97 ∷ 100 ∷ []

abbrev pub opt_write : List ℕ
opt_write = 119 ∷ 114 ∷ 105 ∷ 116 ∷ 101 ∷ []

abbrev pub opt_syscall : List ℕ
opt_syscall = 115 ∷ 121 ∷ 115 ∷ 99 ∷ 97 ∷ 108 ∷ 108 ∷ []

pub get_opcode : List ℕ → Outcome Opcode
get_opcode opt =
    if same_text opt opt_calc
    then Outcome.returned Opcode.calc
    else if same_text opt opt_alloc
    then Outcome.returned Opcode.alloc
    else if same_text opt opt_free
    then Outcome.returned Opcode.free
    else if same_text opt opt_read
    then Outcome.returned Opcode.read
    else if same_text opt opt_write
    then Outcome.returned Opcode.write
    else if same_text opt opt_syscall
    then Outcome.returned Opcode.syscall
    else Outcome.exited

abbrev pub opcode_size : ℕ
opcode_size = 10

abbrev pub buf_size : ℕ
buf_size = 200

-- Numbers stored through the pointers that a call of `fscanf` or `sscanf` got: those that were not
-- read leave the argument as `malloc` left it.
pub store_args : Inst → List ℕ → Inst
store_args i [] = i
store_args i (a ∷ []) = record i { arg_0 = a }
store_args i (a ∷ b ∷ []) = record i { arg_0 = a; arg_1 = b }
store_args i (a ∷ b ∷ c ∷ []) = record i { arg_0 = a; arg_1 = b; arg_2 = c }
store_args i (a ∷ b ∷ c ∷ d ∷ xs) = record i { arg_0 = a; arg_1 = b; arg_2 = c; arg_3 = d }

abbrev pub sizeof_pointer : ℕ
sizeof_pointer = 8

-- A variable that `fscanf` may leave as it was.
abbrev pub or_junk : Option ℕ → (junk : ℕ) → ℕ
or_junk none junk = junk
or_junk (some n) junk = n

-- `malloc` of instructions, from index `i` on.
pub fresh_text : (junk_text : ℕ → Inst) → (size i : ℕ) → List Inst
fresh_text junk_text zero i = []
fresh_text junk_text (suc n) i = junk_text i ∷ fresh_text junk_text n (suc i)

-- The result of `load`, when the loop is done.
pub loaded : (avail_pid : ℕ) → Pcb → Outcome (List Inst) → Outcome (Pcb × ℕ)
loaded avail_pid c Outcome.exited = Outcome.exited
loaded avail_pid c (Outcome.returned text) =
    Outcome.returned (record c { text = text }, u32 (avail_pid + 1))

-- `io` is the C library.
module _ (io : Stdio) where
  -- `fscanf` with the given number of "%u", which stops at the first that reads nothing; the space at
  -- the end of the format is skipped if all were read.
  unfoldable pub scan_args : (count : ℕ) → io.File → List ℕ × io.File
  scan_args zero file = ([], io.skip_space file)
  scan_args (suc n) file =
      let (number, file') = io.scan_number file in
      let rest = scan_args n file' in
      elim number [ none ↦ ([], file') | some a ↦ (a ∷ rest.0, rest.1) ]

  -- The array `buf` after `fgets`, which leaves it as it was at the end of the file.
  pub read_buf : (buf line : Option (List ℕ)) → Option (List ℕ)
  read_buf buf none = buf
  read_buf buf (some line) = some line

  -- The `switch` of `load`: the arguments of an instruction, `buf` and the file afterwards.
  pub read_args :
      Opcode → Inst → (buf : Option (List ℕ)) → io.File → Option (Inst × Option (List ℕ) × io.File)
  unfolding store_args scan_args read_buf
  read_args Opcode.calc i buf file = some (i, buf, file)
  read_args Opcode.alloc i buf file = let r = scan_args 2 file in some (store_args i r.0, buf, r.1)
  read_args Opcode.free i buf file = let r = scan_args 1 file in some (store_args i r.0, buf, r.1)
  read_args Opcode.read i buf file = let r = scan_args 3 file in some (store_args i r.0, buf, r.1)
  read_args Opcode.write i buf file = let r = scan_args 3 file in some (store_args i r.0, buf, r.1)
  read_args Opcode.syscall i buf file = do
    let (line, file') = io.fgets buf_size file
    text ← read_buf buf line
    some (store_args i (io.sscan_numbers 4 text), some text, file')

  -- `fscanf(file, "%s", opcode)`: the array afterwards.
  pub read_opcode : Option (List ℕ) → Option (List ℕ) → Option (List ℕ)
  read_opcode opcode none = opcode
  read_opcode opcode (some word) = if leb opcode_size (length word) then none else some word

  -- What follows in a round: the opcode is known.
  pub read_inst :
      Outcome Opcode
      → Inst
      → (buf : Option (List ℕ)) → io.File
      → Option (Outcome (Inst × Option (List ℕ) × io.File))
  unfolding read_args
  read_inst Outcome.exited junk buf file = some Outcome.exited
  read_inst (Outcome.returned o) junk buf file = do
    r ← read_args o (record junk { opcode = o }) buf file
    some (Outcome.returned r)

  -- What follows a round, when the rest of the loop is done.
  pub put_inst : Inst → Outcome (List Inst) → Outcome (List Inst)
  put_inst i Outcome.exited = Outcome.exited
  put_inst i (Outcome.returned text) = Outcome.returned (i ∷ text)

  -- The loop, with the instructions as `malloc` left them; `opcode` and `buf` are the arrays before.
  pub load_text :
      (junk : List Inst) → (opcode buf : Option (List ℕ)) → io.File → Option (Outcome (List Inst))
  unfolding read_opcode read_inst put_inst get_opcode
  load_text [] opcode buf file = some (Outcome.returned [])
  load_text (j ∷ junk) opcode buf file = do
    let (word, file') = io.scan_word file
    opcode' ← read_opcode opcode word
    r ← read_inst (get_opcode opcode') j buf file'
    elim r [
      | Outcome.exited ↦ some Outcome.exited
      | Outcome.returned (i, buf', file'') ↦ (do
        text ← load_text junk (some opcode') buf' file''
        some (put_inst i text))
    ]

  -- The second "%u" of the first `fscanf`, which is read only if the first was.
  pub read_size : Option ℕ → io.File → Option ℕ × io.File
  read_size none file = (none, file)
  read_size (some priority) file = io.scan_number file

  -- `junk` is the block as `malloc` gave it, `junk_size` its `code->size`, and `junk_text` the
  -- instructions as `malloc` gives them.
  module _ (avail_pid : ℕ) (junk : Pcb) (junk_size : ℕ) (junk_text : ℕ → Inst) (path : List ℕ) where
    -- What `load` does with the open file. `snprintf` keeps `2 * sizeof(path)` characters of the path,
    -- for a pointer of 8 bytes.
    pub load_file : io.File → Option (Outcome (Pcb × ℕ))
    unfolding load_text loaded read_size fresh_text
    load_file file = do
      let (priority, file1) = io.scan_number file
      let (size, file2) = read_size priority file1
      text ← load_text (fresh_text junk_text (or_junk size junk_size) 0) none none file2
      some (
          loaded avail_pid
            (record junk {
              pid = avail_pid;
              pc = 0;
              path = take (2 * sizeof_pointer) path;
              priority = or_junk priority junk.priority;
            })
            text)

    pub load_opened : Option io.File → Option (Outcome (Pcb × ℕ))
    unfolding load_file
    load_opened none = some Outcome.exited
    load_opened (some file) = load_file file

    -- `load`, with the next `avail_pid`.
    pub load : Option (Outcome (Pcb × ℕ))
    unfolding load_opened
    load = load_opened (io.fopen path)
