-- ===== src/Libmem/Alloc/Disjoint/Tests.antt =====
-- A new space whose symbols are empty, and calls on it.
use simple_32bit_os.Base.{
  ◌≡◌, refl, some, List, [], ◌∷◌, arith, replicate, length-replicate, minus_one_long,
}
use simple_32bit_os.Pte.{page_alignsz}
use simple_32bit_os.Pte.Arithmetic.{addr_pgn_lem}
use simple_32bit_os.Libmem.Tests
use simple_32bit_os.Libmem.Tests.{symbol}
use simple_32bit_os.Memory.{Region, Vma, Mm, Caller, max_symtbl_sz}
use simple_32bit_os.Mm.{init_mm}
use simple_32bit_os.Libmem.Alloc.{Alloc, alloc}
use simple_32bit_os.Libmem.Alloc.Disjoint.{IsHeap}
use simple_32bit_os.Libmem.Alloc.Disjoint.Start.{first_area, cover-replicate, init_mm-IsHeap}
use simple_32bit_os.Libmem.Alloc.Disjoint.Break.{Placed}
use simple_32bit_os.Libmem.Alloc.Disjoint.Place.{alloc-Placed}
use simple_32bit_os.Libmem.Alloc.Disjoint.Ops.{Op, allocate, release, exec, Heaps, Fits, exec-Heaps}
use simple_32bit_os.Memphy.{Memphy, frames_from}
use simple_32bit_os.Queue.{Ptr}
use simple_32bit_os.Mm.Isolated.Requests.{Spaces, caller_of, Isolated, nothing_present-Isolated}

abbrev nothing : Region
nothing = record { vmaid = 0; rg_start = minus_one_long; rg_end = minus_one_long }

abbrev memory : Mm
memory = record Tests.process.mm { symrgtbl = replicate max_symtbl_sz nothing }

abbrev new_process : Caller
new_process = record Tests.process { mm = init_mm memory (λ p. 0) 0 [] }

new_process-IsHeap : IsHeap new_process (first_area 0)
new_process-IsHeap =
    init_mm-IsHeap Tests.process memory (λ p. 0) 0 (length-replicate max_symtbl_sz nothing)
      λ x. cover-replicate max_symtbl_sz nothing x (ground arith)

-- Every process has such a space, and RAM has two frames.
abbrev two_frames : Memphy
two_frames = record Tests.device { free_fp_list = frames_from 2 0 }

abbrev new_spaces : Spaces
new_spaces = record { mm = λ p. new_process.mm; mram = two_frames; active_mswp = Tests.device }

new_spaces-Heaps : Heaps new_spaces (λ p. first_area 0)
new_spaces-Heaps q =
    init_mm-IsHeap (caller_of new_spaces q) memory (λ p. 0) 0
      (length-replicate max_symtbl_sz nothing)
      λ x. cover-replicate max_symtbl_sz nothing x (ground arith)

abbrev calls : List Op
calls =
    allocate 7 0 300 symbol
    ∷ allocate 9 1 100 symbol
    ∷ release 7 0
    ∷ allocate 7 2 100 symbol
    ∷ release 7 0
    ∷ allocate 9 1 50 symbol
    ∷ []

calls_fit : Fits (λ p. first_area 0) calls
unfolding page_alignsz
calls_fit q = (ground arith, ground arith)

exec-Heaps_example :
    (after : Spaces) × (vma' : Ptr → Vma) × (exec calls new_spaces ≡ some after)
    × Heaps after vma'
    × Isolated after
unfolding init_mm
exec-Heaps_example =
    exec-Heaps calls new_spaces (λ p. first_area 0) new_spaces-Heaps
      (nothing_present-Isolated new_spaces 2 (omega arith) (λ p i. refl) refl) (omega arith)
      calls_fit

alloc-Placed_example :
    (out : Alloc) × (alloc new_process 0 3 300 symbol ≡ some out)
    × Placed new_process (first_area 0) 3 300 out
unfolding page_alignsz
alloc-Placed_example =
    alloc-Placed new_process (first_area 0) 3 300 symbol new_process-IsHeap (omega arith)
      (omega arith)
      record {
        small = omega arith;
        above_break = omega arith;
        above_end = omega arith;
        pages = omega (arith, addr_pgn_lem 0 (omega arith));
      }
