-- ===== src/Os/Config.antt =====
-- `read_config` of src/os.c, as built with MM_PAGING and MLQ_SCHED. The variables that it sets are
-- static, so that one for which the file has no number stays 0. `none` is undefined behaviour: a path
-- that does not fit in its 100 bytes, or the use of `proc` when no word was read.
pub mod RoundTrip
use simple_32bit_os.Base.{
  ℕ, zero, suc, Option, none, some, List, [], ◌∷◌, ◌++◌, leb, is_neg, if◌then◌else◌, get_or, length,
  ◌>>=◌,
}
use simple_32bit_os.Killall.{proc_dir}
use simple_32bit_os.Loader.{Stdio, Outcome, or_junk, scan_args}
use simple_32bit_os.Os.Load.{LdArgs}

-- PAGING_MAX_MMSWP
abbrev pub max_mmswp : ℕ
max_mmswp = 4

abbrev pub path_size : ℕ
path_size = 100

-- The variables that `read_config` sets.
pub record Config : Type 0 where
  pub time_slot : ℕ
  pub num_cpus : ℕ
  pub memramsz : ℕ
  pub memswpsz : List ℕ
  pub ld_processes : LdArgs

-- The rounds of `for (i = 0; i < n; i++)` on `int`.
abbrev pub rounds : ℕ → ℕ
rounds n = if is_neg n then 0 else n

-- A line for a process.
pub record Entry : Type 0 where
  pub path : List ℕ
  pub start_time : ℕ
  pub prio : ℕ

unfoldable pub put_entry : Entry → LdArgs → LdArgs
put_entry e args = record {
  path = e.path ∷ args.path;
  start_time = e.start_time ∷ args.start_time;
  prio = e.prio ∷ args.prio;
  num_processes = suc args.num_processes;
}

-- `io` is the C library; `junk_prio` is what `malloc` left in `ld_processes.prio`.
module _ (io : Stdio) (junk_prio : ℕ → ℕ) where
  -- The third conversion of "%lu %s %lu\n", and the space behind it.
  pub read_prio : (i : ℕ) → io.File → ℕ × io.File
  read_prio i file =
      let (number, file') = io.scan_long file in
      elim number [ none ↦ (junk_prio i, file') | some n ↦ (n, io.skip_space file') ]

  pub read_process : (i : ℕ) → io.File → Option (Entry × io.File)
  unfolding read_prio
  read_process i file = do
    let (number, file1) = io.scan_long file
    start_time ← number
    let (word, file2) = io.scan_word file1
    proc ← word
    let (prio, file3) = read_prio i file2
    let path = proc_dir ++ proc
    let entry = some (record { path = path; start_time = start_time; prio = prio }, file3)
    if leb path_size (length path) then none else entry

  -- The loop, with the given number of rounds left. `num_processes` of the result is this number.
  pub read_processes : ℕ → (i : ℕ) → io.File → Option (LdArgs)
  unfolding read_process put_entry
  read_processes zero i file =
      some (record { path = []; start_time = []; prio = []; num_processes = 0 })
  read_processes (suc n) i file = do
    (entry, file') ← read_process i file
    args ← read_processes n (suc i) file'
    some (put_entry entry args)

  -- The loop over the sizes of the swap devices.
  pub read_sizes : ℕ → io.File → List ℕ × io.File
  read_sizes zero file = ([], file)
  read_sizes (suc n) file =
      let (number, file') = io.scan_number file in
      let rest = read_sizes n file' in (or_junk number 0 ∷ rest.0, rest.1)

  -- What `read_config` does with the open file.
  pub read_file : io.File → Option (Outcome Config)
  read_file file = do
    let (counts, file1) = scan_args io 3 file
    let (ram, file2) = scan_args io 1 file1
    let (swaps, file3) = read_sizes max_mmswp file2
    args ← read_processes (rounds (get_or counts 2 0)) 0 (io.skip_space file3)
    some (
        Outcome.returned (record {
          time_slot = get_or counts 0 0;
          num_cpus = get_or counts 1 0;
          memramsz = get_or ram 0 0;
          memswpsz = swaps;
          ld_processes = args;
        }))

  pub read_opened : Option io.File → Option (Outcome Config)
  unfolding read_file
  read_opened none = some Outcome.exited
  read_opened (some file) = read_file file

  pub read_config : (path : List ℕ) → Option (Outcome Config)
  unfolding read_opened
  read_config path = read_opened (io.fopen path)
