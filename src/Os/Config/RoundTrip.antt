-- ===== src/Os/Config/RoundTrip.antt =====
-- A configuration, the text of a file for it, and what `read_config` makes of that file.
use simple_32bit_os.Base.{
  ℕ, suc, ◌<◌, ◌^◌, ◌≡◌, refl, ap, subst, Option, none, some, List, [], ◌∷◌, ◌++◌, arith, leb,
  is_neg, length, All, false,
}
use simple_32bit_os.Killall.{proc_dir}
use simple_32bit_os.Loader.{Stdio, Outcome, scan_args}
use simple_32bit_os.Os.Load.{LdArgs}
use simple_32bit_os.Os.Config.{
  Config, put_entry, read_prio, read_process, read_processes, read_sizes, read_file, read_opened,
  read_config, max_mmswp, path_size,
}

-- What stands between white space in a file.
pub data Token : Type 0 where
  num : ℕ → Token
  word : List ℕ → Token

-- What the C library promises for a file whose text is a list of tokens: a conversion reads the token
-- that it fits, and the file is then at the next.
pub record Tokens (io : Stdio) : Type 1 where
  pub At : io.File → List Token → Type 0
  pub number :
      (file : io.File) (n : ℕ) (ts : List Token)
      → n < 2 ^ 32
      → At file (num n ∷ ts)
      → (file' : io.File) × (io.scan_number file ≡ (some n, file')) × At file' ts
  pub long :
      (file : io.File) (n : ℕ) (ts : List Token)
      → n < 2 ^ 64
      → At file (num n ∷ ts)
      → (file' : io.File) × (io.scan_long file ≡ (some n, file')) × At file' ts
  pub text :
      (file : io.File) (w : List ℕ) (ts : List Token)
      → At file (word w ∷ ts)
      → (file' : io.File) × (io.scan_word file ≡ (some w, file')) × At file' ts
  pub space : (file : io.File) (ts : List Token) → At file ts → At (io.skip_space file) ts

-- A process of a configuration, by the name of its program.
pub record Program : Type 0 where
  pub start_time : ℕ
  pub name : List ℕ
  pub prio : ℕ

pub record Sheet : Type 0 where
  pub time_slot : ℕ
  pub num_cpus : ℕ
  pub memramsz : ℕ
  pub memswpsz : List ℕ
  pub programs : List Program

abbrev pub print_sizes : List ℕ → List Token → List Token
print_sizes [] rest = rest
print_sizes (n ∷ ns) rest = num n ∷ print_sizes ns rest

abbrev pub print_programs : List Program → List Token
print_programs [] = []
print_programs (p ∷ ps) = num p.start_time ∷ word p.name ∷ num p.prio ∷ print_programs ps

-- The text of a configuration file.
abbrev pub print : Sheet → List Token
print c =
    num c.time_slot
    ∷ num c.num_cpus
    ∷ num (length c.programs)
    ∷ num c.memramsz
    ∷ print_sizes c.memswpsz (print_programs c.programs)

-- The numbers fit in the words that they are read into, and each path in its 100 bytes.
pub record IsProgram (p : Program) : Type 0 where
  pub start_time : p.start_time < 2 ^ 64
  pub name : length p.name < 89
  pub prio : p.prio < 2 ^ 64

pub record IsSheet (c : Sheet) : Type 0 where
  pub time_slot : c.time_slot < 2 ^ 32
  pub num_cpus : c.num_cpus < 2 ^ 32
  pub memramsz : c.memramsz < 2 ^ 32
  pub swaps : length c.memswpsz ≡ max_mmswp
  pub memswpsz : All (λ n. n < 2 ^ 32) c.memswpsz
  pub few : length c.programs < 2 ^ 31
  pub programs : All IsProgram c.programs

-- The arrays for the programs.
abbrev pub args_of : List Program → LdArgs
args_of [] = record { path = []; start_time = []; prio = []; num_processes = 0 }
args_of (p ∷ ps) =
    let rest = args_of ps in
    record {
      path = (proc_dir ++ p.name) ∷ rest.path;
      start_time = p.start_time ∷ rest.start_time;
      prio = p.prio ∷ rest.prio;
      num_processes = suc rest.num_processes;
    }

abbrev pub config_of : Sheet → Config
config_of c = record {
  time_slot = c.time_slot;
  num_cpus = c.num_cpus;
  memramsz = c.memramsz;
  memswpsz = c.memswpsz;
  ld_processes = args_of c.programs;
}

module _ (io : Stdio) (junk_prio : ℕ → ℕ) (t : Tokens io) where
  read_prio-some :
      (i n : ℕ) (file file' : io.File)
      → io.scan_long file ≡ (some n, file')
      → read_prio io junk_prio i file ≡ (n, io.skip_space file')
  unfolding read_prio
  read_prio-some i n file file' e =
      ap
        (λ (r : Option ℕ × io.File).
          let out : ℕ × io.File = elim r.0 [
            | none ↦ (junk_prio i, r.1)
            | some a ↦ (a, io.skip_space r.1)
          ] in
          out)
        e

  read_process-print :
      (i : ℕ) (file : io.File) (p : Program) (rest : List Token)
      → IsProgram p
      → t.At file (num p.start_time ∷ word p.name ∷ num p.prio ∷ rest)
      → (file' : io.File) × (read_process io junk_prio i file
          ≡ some (
            record { path = proc_dir ++ p.name; start_time = p.start_time; prio = p.prio },
            file',
          ))
        × t.At file' rest
  unfolding read_process read_prio
  read_process-print i file p rest v at =
      let (file1, e1, at1) = t.long file p.start_time _ v.start_time at in
      let (file2, e2, at2) = t.text file1 p.name _ at1 in
      let (file3, e3, at3) = t.long file2 p.prio rest v.prio at2 in
      let fits : leb path_size (length (proc_dir ++ p.name)) ≡ false = ground (arith, v.name) in
      let prio : read_prio io junk_prio i file2 ≡ (p.prio, io.skip_space file3) =
        read_prio-some i p.prio file2 file3 e3 in
      (io.skip_space file3, rw (e1, e2, prio, fits) refl, t.space file3 rest at3)

  read_processes-print :
      (ps : List Program) (i : ℕ) (file : io.File)
      → All IsProgram ps
      → t.At file (print_programs ps)
      → read_processes io junk_prio (length ps) i file ≡ some (args_of ps)
  unfolding read_processes put_entry
  read_processes-print [] i file v at = refl
  read_processes-print (p ∷ ps) i file v at =
      let (file', e, at') = read_process-print i file p (print_programs ps) v.0 at in
      rw (e, read_processes-print ps (suc i) file' v.1 at') refl

  read_sizes-print :
      (ns : List ℕ) (file : io.File) (rest : List Token)
      → All (λ n. n < 2 ^ 32) ns
      → t.At file (print_sizes ns rest)
      → (file' : io.File) × (read_sizes io junk_prio (length ns) file ≡ (ns, file'))
        × t.At file' rest
  unfolding read_sizes
  read_sizes-print [] file rest v at = (file, refl, at)
  read_sizes-print (n ∷ ns) file rest v at =
      let (file1, e, at1) = t.number file n _ v.0 at in
      let (file2, e2, at2) = read_sizes-print ns file1 rest v.1 at1 in (file2, rw (e, e2) refl, at2)

  scan_args-suc :
      (count n : ℕ) (file file' : io.File)
      → io.scan_number file ≡ (some n, file')
      → scan_args io (suc count) file
        ≡ (n ∷ (scan_args io count file').0, (scan_args io count file').1)
  unfolding scan_args
  scan_args-suc count n file file' e =
      ap
        (λ (r : Option ℕ × io.File).
          let rest = scan_args io count r.1 in
          let out : List ℕ × io.File = elim r.0 [
            | none ↦ ([], r.1)
            | some a ↦ (a ∷ rest.0, rest.1)
          ] in
          out)
        e

  scan_args-zero : (file : io.File) → scan_args io 0 file ≡ ([], io.skip_space file)
  unfolding scan_args
  scan_args-zero file = refl

  scan_args-print :
      (ns : List ℕ) (file : io.File) (rest : List Token)
      → All (λ n. n < 2 ^ 32) ns
      → t.At file (print_sizes ns rest)
      → (file' : io.File) × (scan_args io (length ns) file ≡ (ns, file')) × t.At file' rest
  scan_args-print [] file rest v at =
      (io.skip_space file, scan_args-zero file, t.space file rest at)
  scan_args-print (n ∷ ns) file rest v at =
      let (file1, e, at1) = t.number file n _ v.0 at in
      let (file2, e2, at2) = scan_args-print ns file1 rest v.1 at1 in
      (file2, rw (scan_args-suc (length ns) n file file1 e, e2) refl, at2)

  -- The file of a configuration is read back as it was written, whatever the memory held before, if
  -- its numbers fit in their types, there are four sizes of swap, fewer than 2 ^ 31 processes, and no
  -- name of a program has more than 88 characters: the sizes and counts, and for each process its
  -- path in the directory of the programs, its start and its `prio`, in the order of the file.
  pub read_config-print :
      (path : List ℕ) (file : io.File) (c : Sheet)
      → io.fopen path ≡ some file
      → t.At file (print c)
      → IsSheet c
      → read_config io junk_prio path ≡ some (Outcome.returned (config_of c))
  unfolding read_config read_opened read_file
  read_config-print path file c open_ at v =
      let count : length c.programs < 2 ^ 32 = omega (arith, v.few) in
      let (file1, e1, at1) =
        scan_args-print (c.time_slot ∷ c.num_cpus ∷ length c.programs ∷ []) file
          (num c.memramsz ∷ print_sizes c.memswpsz (print_programs c.programs))
          (v.time_slot, (v.num_cpus, (count, tt))) at in
      let (file2, e2, at2) =
        scan_args-print (c.memramsz ∷ []) file1 (print_sizes c.memswpsz (print_programs c.programs))
          (v.memramsz, tt) at1 in
      let (file3, e3, at3) =
        read_sizes-print c.memswpsz file2 (print_programs c.programs) v.memswpsz at2 in
      let sizes : read_sizes io junk_prio max_mmswp file2 ≡ (c.memswpsz, file3) =
        subst (λ n. read_sizes io junk_prio n file2 ≡ (c.memswpsz, file3)) v.swaps e3 in
      let plain : is_neg (length c.programs) ≡ false = ground (arith, v.few) in
      let all =
        read_processes-print c.programs 0 (io.skip_space file3) v.programs
          (t.space file3 (print_programs c.programs) at3) in
      rw (open_, e1, e2, sizes, plain, all) refl
