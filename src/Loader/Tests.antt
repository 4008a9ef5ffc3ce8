-- ===== src/Loader/Tests.antt =====
-- A C library whose files are lists of words, in which a number is a word of one character, and the
-- program "1 1 calc" under every path.
use simple_32bit_os.Base.{
  ℕ, ◌≡◌, refl, none, some, List, [], ◌∷◌, ◌++◌, not, leb, length, arith, Option,
}
use simple_32bit_os.Process.{Pcb}
use simple_32bit_os.Killall.{proc_dir, is_kept, same_text}
use simple_32bit_os.System.Tests.{block, instruction}
use simple_32bit_os.Loader.{
  Stdio, Outcome, load, load_opened, load_file, load_text, read_opcode, read_inst, read_args,
  put_inst, get_opcode, loaded, read_size, fresh_text,
}
use simple_32bit_os.Loader.Names.{is_kept-load}

abbrev first_word : List (List ℕ) → Option (List ℕ) × List (List ℕ)
first_word [] = (none, [])
first_word (w ∷ ws) = (some w, ws)

abbrev first_number : List (List ℕ) → Option ℕ × List (List ℕ)
first_number [] = (none, [])
first_number ([] ∷ ws) = (none, [] ∷ ws)
first_number ((n ∷ ns) ∷ ws) = (some n, ws)

abbrev words : Stdio
words = record {
  File = List (List ℕ);
  fopen = λ path. some ((1 ∷ []) ∷ (1 ∷ []) ∷ (99 ∷ 97 ∷ 108 ∷ 99 ∷ []) ∷ []);
  scan_word = first_word;
  scan_number = first_number;
  scan_long = first_number;
  skip_space = λ file. file;
  fgets = λ size file. (none, file);
  sscan_numbers = λ count text. [];
}

-- "long_name" has nine characters.
abbrev name : List ℕ
name = 108 ∷ 111 ∷ 110 ∷ 103 ∷ 95 ∷ 110 ∷ 97 ∷ 109 ∷ 101 ∷ []

abbrev path : List ℕ
path = proc_dir ++ name

abbrev long_named : Pcb
long_named = record (block (λ p. 1) 2) {
  path =
      105 ∷ 110 ∷ 112 ∷ 117 ∷ 116 ∷ 47 ∷ 112 ∷ 114 ∷ 111 ∷ 99 ∷ 47 ∷ 108 ∷ 111 ∷ 110 ∷ 103 ∷ 95
      ∷ [];
}

load_long :
    load words 2 (block (λ p. 1) 7) 0 (λ i. instruction) path
    ≡ some (Outcome.returned (record long_named { pid = 2 }, 3))
unfolding load load_opened load_file load_text read_opcode read_inst read_args put_inst get_opcode
    loaded read_size fresh_text same_text
load_long = refl

is_kept-load_example : is_kept 3 path 4 long_named ≡ not (leb (length name) 5)
is_kept-load_example =
    is_kept-load words 2 (block (λ p. 1) 7) 0 (λ i. instruction) path name long_named 3 3 4 refl
      load_long (λ e. omega (arith, e)) (λ e. omega (arith, e))
