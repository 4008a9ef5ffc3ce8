-- ===== src/Os/Boot/Tests.antt =====
-- A C library whose files are lists of tokens, with one configuration in it: two CPUs, RAM and swap of
-- four frames, and one process.
use simple_32bit_os.Base.{ℕ, ◌≡◌, ◌++◌, refl, Option, none, some, List, [], ◌∷◌, arith}
use simple_32bit_os.Libmem.Tests
use simple_32bit_os.System.Tests.{block}
use simple_32bit_os.Loader.{Stdio, Outcome}
use simple_32bit_os.Os.Config.{read_config}
use simple_32bit_os.Os.Config.RoundTrip.{
  Token, num, word, Tokens, Sheet, print, config_of, read_config-print,
}
use simple_32bit_os.Os.Boot.{Junk, Boot, threads, input_dir, main}
use simple_32bit_os.Os.Boot.Ready.{IsReady, main-IsReady}

abbrev next_number : List Token → Option ℕ × List Token
next_number [] = (none, [])
next_number (num n ∷ ts) = (some n, ts)
next_number (word w ∷ ts) = (none, word w ∷ ts)

abbrev next_word : List Token → Option (List ℕ) × List Token
next_word [] = (none, [])
next_word (num n ∷ ts) = (none, num n ∷ ts)
next_word (word w ∷ ts) = (some w, ts)

-- "p0", started at 3 with `prio` 5.
abbrev sheet : Sheet
sheet = record {
  time_slot = 6;
  num_cpus = 2;
  memramsz = 1024;
  memswpsz = 1024 ∷ 0 ∷ 0 ∷ 0 ∷ [];
  programs = record { start_time = 3; name = 112 ∷ 48 ∷ []; prio = 5 } ∷ [];
}

abbrev tokens_io : Stdio
tokens_io = record {
  File = List Token;
  fopen = λ path. some (print sheet);
  scan_word = next_word;
  scan_number = next_number;
  scan_long = next_number;
  skip_space = λ file. file;
  fgets = λ size file. (none, file);
  sscan_numbers = λ count text. [];
}

abbrev tokens : Tokens tokens_io
tokens = record {
  At = λ file ts. file ≡ ts;
  number = λ file n ts lt e. (ts, rw e refl, refl);
  long = λ file n ts lt e. (ts, rw e refl, refl);
  text = λ file w ts e. (ts, rw e refl, refl);
  space = λ file ts e. e;
}

abbrev junk : Junk
junk = record {
  mram = Tests.device;
  mswp = λ i. Tests.device;
  fp_next = [];
  heap = block (λ p. 1);
  memory = λ p. Tests.process.mm;
  prio = λ i. 77;
}

read_config-print_example :
    read_config tokens_io (λ i. 77) (input_dir ++ 99 ∷ [])
    ≡ some (Outcome.returned (config_of sheet))
read_config-print_example =
    read_config-print tokens_io (λ i. 77) tokens (input_dir ++ 99 ∷ []) (print sheet) sheet refl
      refl (omega arith)

main-IsReady_example :
    (b : Boot) × (main tokens_io junk ([] ∷ (99 ∷ []) ∷ []) ≡ some (Outcome.returned (threads b)))
    × (b.config ≡ config_of sheet)
    × IsReady (config_of sheet) 1024 b
main-IsReady_example =
    main-IsReady tokens_io junk [] (99 ∷ []) (config_of sheet) 1024 (0 ∷ 0 ∷ 0 ∷ []) (omega arith)
      read_config-print_example
      (record {
        sizes = refl;
        ram_big = omega arith;
        ram_small = omega arith;
        swap_big = omega arith;
        swap_small = omega arith;
        others_small = omega arith;
      })
