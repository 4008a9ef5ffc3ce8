-- ===== src/Libmem/Tests.antt =====
-- A process with two devices of 1024 bytes: page 0 is in frame 0, page 1 has no frame, and symbol 0
-- is the bytes 16 to 79.
use mathlib.Core.List.{reverse}
use simple_32bit_os.Base.{
  ◌+◌, ◌*◌, ◌/◌, ◌%◌, ◌^◌, ◌≡◌, ◌↔◌, inl, inr, refl, some, none, [], ◌∷◌, arith, ◌==◌,
  if◌then◌else◌, All, take, drop, replicate, sext, u32,
}
use simple_32bit_os.Pte.{pagesz, addr_pgn, page_alignsz}
use simple_32bit_os.Pte.Arithmetic.{addr_pgn_lem}
use simple_32bit_os.Memphy.{Memphy}
use simple_32bit_os.Memory.{Region, Vma, Mm, Caller}
use simple_32bit_os.Mm.{vm_map_ram}
use simple_32bit_os.Mm.Alloc.{with_free}
use simple_32bit_os.Mm.Map.{Maps, mapped_result, vm_map_ram-Maps}
use simple_32bit_os.Vm.{validate_overlap_vm_area, inc_vma_limit}
use simple_32bit_os.Vm.Areas.{Clear, validate_overlap_vm_area_iff}
use simple_32bit_os.Vm.Limit.{IsOne, with_area, grown, inc_vma_limit-Maps}
use simple_32bit_os.Libmem.FreeList.{probe, FreeArea, get_free_vmrg_area}
use simple_32bit_os.Libmem.FreeList.Fit.{Answer, get_free_vmrg_area-Answer, probe-endless}
use simple_32bit_os.Libmem.Alloc.{Alloc, alloc, alloc_heap}
use simple_32bit_os.Libmem.Alloc.Reuse.{Reused, alloc-Reused}
use simple_32bit_os.Libmem.Alloc.Heap.{allocated, at_break, alloc_heap-overlap}

abbrev pub device : Memphy
device = record {
  storage = λ a. a % 256;
  maxsz = 1024;
  rdmflg = 1;
  cursor = 0;
  free_fp_list = 1 ∷ 2 ∷ [];
}

abbrev hole : Region
hole = record { vmaid = 0; rg_start = 80; rg_end = 128 }

abbrev pub symbol : Region
symbol = record { vmaid = 0; rg_start = 16; rg_end = 80 }

abbrev pub heap : Vma
heap = record { vm_id = 0; vm_start = 0; vm_end = 256; sbrk = 128; vm_freerg_list = hole ∷ [] }

abbrev fresh : Vma
fresh = record heap { vm_end = 0; sbrk = 0; vm_freerg_list = [] }

abbrev pub process : Caller
process = record {
  mm = record {
    pgd = λ p. if p == 0 then 2 ^ 31 else 0;
    mmap = heap ∷ [];
    symrgtbl = symbol ∷ replicate 29 hole;
    fifo_pgn = 0 ∷ [];
  };
  mram = device;
  active_mswp = device;
}

abbrev fresh_process : Caller
fresh_process = with_area process fresh

validate_overlap_vm_area_iff_example :
    (validate_overlap_vm_area process 0 300 400 ≡ 0)
    ↔ All (λ vma. Clear vma 300 400) process.mm.mmap
validate_overlap_vm_area_iff_example =
    validate_overlap_vm_area_iff process 0 300 400 (omega arith) (omega arith) (omega arith, tt)

vm_map_ram-Maps_example :
    (mm' : Mm) × (vm_map_ram process 0 0 256 2 ≡ some (mapped_result process mm' 256 2))
    × Maps process.mm (addr_pgn 256) (reverse (take 2 process.mram.free_fp_list)) mm'
vm_map_ram-Maps_example =
    vm_map_ram-Maps process 0 0 256 2 (omega arith) (omega (arith, addr_pgn_lem 256 (omega arith)))

align_100 : page_alignsz 100 ≡ 256
unfolding page_alignsz
align_100 = refl

align_200 : page_alignsz 200 ≡ 256
unfolding page_alignsz
align_200 = refl

heap-IsOne : IsOne process heap (page_alignsz 100)
heap-IsOne = record {
  one = refl;
  number = refl;
  bounded = omega arith;
  small_sbrk = omega (arith, align_100);
  small_end = omega (arith, align_100);
}

fresh-IsOne : IsOne fresh_process fresh (page_alignsz 100)
fresh-IsOne = record {
  one = refl;
  number = refl;
  bounded = omega arith;
  small_sbrk = omega (arith, align_100);
  small_end = omega (arith, align_100);
}

inc_vma_limit-Maps_example :
    (mm' : Mm) × (inc_vma_limit fresh_process 0 100
      ≡ some (record {
        result = 0;
        caller = record fresh_process {
          mm = mm';
          mram = with_free device (drop (page_alignsz 100 / pagesz) device.free_fp_list);
        };
      }))
    × Maps
        (with_area fresh_process (grown fresh (page_alignsz 100))).mm
        (addr_pgn 0)
        (reverse (take (page_alignsz 100 / pagesz) device.free_fp_list))
        mm'
inc_vma_limit-Maps_example =
    inc_vma_limit-Maps fresh_process fresh 100 (omega arith) fresh-IsOne (inl refl)
      (omega (arith, align_100)) (omega (arith, align_100, addr_pgn_lem 0 (omega arith)))

get_free_vmrg_area-Answer_example :
    (a : FreeArea) × (get_free_vmrg_area process.mm 0 48 symbol ≡ some a)
    × Answer (heap ∷ []) 0 heap 0 (sext 48) (hole ∷ []) a
    × (a.mm.symrgtbl ≡ process.mm.symrgtbl)
get_free_vmrg_area-Answer_example =
    get_free_vmrg_area-Answer process.mm heap 48 symbol refl refl (omega arith)
      ((omega arith, omega arith), tt)

probe-endless_example : probe 1000 0 0 (record hole { rg_end = 80 } ∷ []) symbol ≡ none
probe-endless_example =
    probe-endless 1000 0 (record hole { rg_end = 80 }) symbol refl refl (omega arith)

twice-IsOne : IsOne process heap (2 * page_alignsz 200)
twice-IsOne = record {
  one = refl;
  number = refl;
  bounded = omega arith;
  small_sbrk = omega (arith, align_200);
  small_end = omega (arith, align_200);
}

alloc_heap-overlap_example :
    alloc_heap process 0 heap 0 1 200 hole
    ≡ some (record {
      result = 0;
      alloc_addr = some (u32 80);
      caller = allocated process heap (128 + page_alignsz 200 + 200) 1 (at_break heap 200);
    })
alloc_heap-overlap_example =
    alloc_heap-overlap process heap 1 200 hole (omega arith) (omega arith) twice-IsOne (omega arith)
      (omega arith) (λ e. omega (arith, e))
      (128, omega arith, omega arith, omega arith, omega (arith, align_200))

alloc-Reused_example :
    (out : Alloc) × (alloc process 0 1 48 symbol ≡ some out)
    × Reused (sext 48) 1 heap process.mm.symrgtbl out
alloc-Reused_example =
    alloc-Reused process heap 1 48 symbol refl refl (omega arith) (omega arith) (omega arith)
      ((omega arith, omega arith), tt)
      (λ n. elim n [ inl other ↦ other refl | inr (short, _) ↦ omega (arith, short) ])
