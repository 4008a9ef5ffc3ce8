-- ===== src/Libmem/Private/Tests.antt =====
-- Two processes, each with page 0 in a frame of its own and one symbol in it.
use simple_32bit_os.Base.{
  ℕ, zero, suc, ◌+◌, ◌<◌, ◌^◌, ◌≡◌, inl, refl, sym, ◌∙◌, some, [], ◌∷◌, arith, replicate, true,
  false,
}
use simple_32bit_os.Pte.{addr_pgn, page_present, pte_fpn}
use simple_32bit_os.Pte.Arithmetic.{addr_pgn_lem}
use simple_32bit_os.Memory.{Region, Vma, Caller}
use simple_32bit_os.Queue.{Ptr}
use simple_32bit_os.Mm.Isolated.Requests.{Spaces, caller_of, after_call, Isolated}
use simple_32bit_os.Libmem.Tests.{device, symbol}
use simple_32bit_os.Libmem.Alloc.Disjoint.Start.{cover-replicate}
use simple_32bit_os.Libmem.Alloc.Disjoint.Ops.{Heaps}
use simple_32bit_os.Libmem.Paging.{libread, libwrite}
use simple_32bit_os.Libmem.Paging.Present.{frame_of}
use simple_32bit_os.Libmem.Paging.Regions.{IsSymbol}
use simple_32bit_os.Libmem.Private.{libread-libwrite_other}

-- The entry of page `i` of process `p`.
abbrev entry : Ptr → ℕ → ℕ
entry zero zero = 2 ^ 31
entry (suc zero) zero = 2 ^ 31 + 1
entry p i = 0

abbrev nothing : Region
nothing = record { vmaid = 0; rg_start = 0; rg_end = 0 }

abbrev area : Vma
area = record { vm_id = 0; vm_start = 0; vm_end = 256; sbrk = 128; vm_freerg_list = [] }

abbrev two : Spaces
two = record {
  mm = λ p. record {
    pgd = entry p;
    mmap = area ∷ [];
    symrgtbl = symbol ∷ replicate 29 nothing;
    fifo_pgn = 0 ∷ [];
  };
  mram = record device { free_fp_list = 2 ∷ [] };
  active_mswp = device;
}

two-Heaps : Heaps two (λ p. area)
two-Heaps q =
    let rest = λ (x : ℕ). cover-replicate 29 nothing x (ground arith) in
    record {
      one = refl;
      number = refl;
      ordered = omega arith;
      table = refl;
      once = λ x. ground (arith, rest x);
      below = λ x le. ground (arith, rest x);
      bounded = omega arith;
      small = omega arith;
    }

absent : page_present 0 ≡ true → ⊥
unfolding page_present
absent e = let no : page_present 0 ≡ false = refl in absurd (cc)

frame_0 : pte_fpn (2 ^ 31) ≡ 0
unfolding pte_fpn
frame_0 = refl

frame_1 : pte_fpn (2 ^ 31 + 1) ≡ 1
unfolding pte_fpn
frame_1 = refl

present_both : (page_present (2 ^ 31) ≡ true) × (page_present (2 ^ 31 + 1) ≡ true)
unfolding page_present
present_both = (refl, refl)

-- A page that is present is page 0 of process 0 or 1, in the frame of that number.
present_page :
    (p : Ptr) (i : ℕ)
    → page_present (entry p i) ≡ true
    → (i ≡ 0) × (pte_fpn (entry p i) ≡ p) × (p < 2)
present_page zero zero e = (refl, frame_0, omega arith)
present_page zero (suc i) e = absurd (absent e)
present_page (suc zero) zero e = (refl, frame_1, omega arith)
present_page (suc zero) (suc i) e = absurd (absent e)
present_page (suc (suc p)) i e = absurd (absent e)

entry_word : (p : Ptr) (i : ℕ) → entry p i < 2 ^ 32
entry_word zero zero = omega arith
entry_word zero (suc i) = omega arith
entry_word (suc zero) zero = omega arith
entry_word (suc zero) (suc i) = omega arith
entry_word (suc (suc p)) i = omega arith

two-Isolated : Isolated two
two-Isolated = record {
  once = λ f. ground arith;
  small = λ f h. ground arith;
  words = entry_word;
  apart = λ p q i j (_, v) (_, v') e.
      let (a, b, _) = present_page p i v in
      let (a', b', _) = present_page q j v' in (sym b ∙ e ∙ b', a ∙ sym a');
  taken = λ p i (_, v). let (_, b, c) = present_page p i v in rw b (ground arith);
}

page_0 : addr_pgn 20 ≡ 0
page_0 = addr_pgn_lem 20 (omega arith)

abbrev byte_4 : (p : Ptr) → page_present (entry p 0) ≡ true → IsSymbol (caller_of two p) 0 4
byte_4 p v =
    let (_, frame, few) = present_page p 0 v in
    let here : frame_of (caller_of two p) 20 ≡ p = rw page_0 frame in
    record {
      area = area;
      one = refl;
      number = refl;
      inside = omega arith;
      region = symbol;
      symbol = refl;
      mapped = record {
        word = omega arith;
        present = rw page_0 v;
        random = λ e. omega (arith, e);
        inside = omega (arith, here);
        small = omega arith;
      };
    }

libread-libwrite_other_example :
    (after : Caller) × (libwrite (caller_of two 0) 200 0 4
      ≡ some (record { result = 0; caller = after }))
    × (d : ℕ) × (libread (caller_of two 1) 0 4
        ≡ some (record { result = 0; destination = some d; proc = caller_of two 1 }))
    × (libread (caller_of (after_call two 0 after) 1) 0 4
        ≡ some (record {
          result = 0;
          destination = some d;
          proc = caller_of (after_call two 0 after) 1;
        }))
libread-libwrite_other_example =
    libread-libwrite_other two (λ p. area) two-Heaps two-Isolated 0 1 0 0 4 4 (λ r. omega arith)
      (byte_4 0 present_both.0) (byte_4 1 present_both.1) (omega arith) (omega arith) (omega arith)
      (omega arith) (inl λ e. omega (arith, e)) 200
