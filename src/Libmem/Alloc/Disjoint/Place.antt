-- ===== src/Libmem/Alloc/Disjoint/Place.antt =====
-- `__alloc` keeps the regions of the heap apart, wherever it finds the bytes.
use simple_32bit_os.Base.{
  ℕ, ◌+◌, ◌<◌, ◌≤◌, ◌≡◌, refl, ap, ◌∙◌, inl, inr, some, List, [], ◌∷◌, arith, ltb, ◌==◌, ◌||◌,
  false, get_elem?, length, set, length-set, sext, is_neg, All, minus_one,
}
use simple_32bit_os.Memory.{Region, Vma, Caller, max_symtbl_sz}
use simple_32bit_os.Mm.Isolated.Keeps.{Keeps-same, Keeps-trans}
use simple_32bit_os.Vm.Areas.{get_vma_by_num-one}
use simple_32bit_os.Libmem.FreeList.{FreeArea, get_free_vmrg_area, bad_rgid}
use simple_32bit_os.Libmem.FreeList.Search.{cover, TakenFrom, Splits}
use simple_32bit_os.Libmem.FreeList.Bounded.{Bounded, Bounded-NoWrap}
use simple_32bit_os.Libmem.FreeList.Fit.{Answer, get_free_vmrg_area-Answer, get_free_vmrg_area-pgd}
use simple_32bit_os.Libmem.Alloc.{Alloc, alloc, alloc_at_brk}
use simple_32bit_os.Libmem.Alloc.Reuse.{alloc-found}
use simple_32bit_os.Libmem.Alloc.Disjoint.{IsHeap, cover-set_le}
use simple_32bit_os.Libmem.Alloc.Disjoint.Break.{Placed, HasRoom, alloc_heap-Placed}

taken_whole :
    (n : ℕ) (rs : List Region) (new : Region) → TakenFrom n rs new → new.rg_end ≡ new.rg_start + n
taken_whole n [] new taken = absurd taken
taken_whole n (r ∷ rs) new (inl (fits, start, end_)) = omega (arith, start, end_)
taken_whole n (r ∷ rs) new (inr taken) = taken_whole n rs new taken

-- The same regions in another address space.
pub IsHeap-same :
    {caller caller' : Caller} {vma : Vma}
    → IsHeap caller vma
    → caller'.mm.mmap ≡ vma ∷ []
    → caller'.mm.symrgtbl ≡ caller.mm.symrgtbl
    → IsHeap caller' vma
IsHeap-same {vma = vma} h areas same = record {
  one = areas;
  number = h.number;
  ordered = h.ordered;
  table = ap length same ∙ h.table;
  once = λ x. omega (arith, h.once x, ap (λ rs. cover rs x) same);
  below = λ x le. omega (arith, h.below x le, ap (λ rs. cover rs x) same);
  bounded = h.bounded;
  small = h.small;
}

-- A symbol gets a region that was taken out of the free list.
IsHeap-taken :
    {caller caller' : Caller} {vma : Vma} (rgid : ℕ) (left : List Region) (region : Region)
    → IsHeap caller vma
    → caller'.mm.mmap ≡ record vma { vm_freerg_list = left } ∷ []
    → caller'.mm.symrgtbl ≡ set caller.mm.symrgtbl rgid region
    → Splits vma.vm_freerg_list left region
    → All Bounded left
    → IsHeap caller' (record vma { vm_freerg_list = left })
IsHeap-taken {caller} {caller'} {vma} rgid left region h areas table splits bounded = record {
  one = areas;
  number = h.number;
  ordered = h.ordered;
  table = ap length table ∙ length-set caller.mm.symrgtbl rgid region ∙ h.table;
  once = λ x. omega (arith, h.once x, less x);
  below = λ x le. omega (arith, h.below x le, less x);
  bounded = bounded;
  small = h.small;
}
  where
    less :
        (x : ℕ)
        → cover left x + cover caller'.mm.symrgtbl x
          ≤ cover vma.vm_freerg_list x + cover caller.mm.symrgtbl x
    less x = omega (
      arith,
      splits x,
      cover-set_le caller.mm.symrgtbl rgid region x,
      ap (λ rs. cover rs x) table,
    )

module _ (caller : Caller) (vma : Vma) (rgid size : ℕ) (junk : Region) (h : IsHeap caller vma)
    (valid : rgid < max_symtbl_sz) (pos : 0 < size) (room : HasRoom vma size) where
  alloc-refused :
      (a : FreeArea)
      → get_free_vmrg_area caller.mm 0 size (record junk { vmaid = sext 0 }) ≡ some a
      → a.result ≡ minus_one
      → a.mm.mmap ≡ vma ∷ []
      → a.mm.symrgtbl ≡ caller.mm.symrgtbl
      → (out : Alloc) × (alloc caller 0 rgid size junk ≡ some out) × Placed caller vma rgid size out
  unfolding alloc alloc_at_brk bad_rgid
  alloc-refused a call result areas same =
      let after = record caller { mm = a.mm } in
      let (out, e, placed') =
        alloc_heap-Placed after vma rgid size (IsHeap-same h areas same) valid room a.newrg in
      let good : (is_neg rgid || ltb max_symtbl_sz rgid) ≡ false = ground (arith, valid) in
      let missing : (a.result == 0) ≡ false = ground (arith, result) in
      let first : get_elem? a.mm.mmap 0 ≡ some vma = ap (λ vmas. get_elem? vmas 0) areas in
      (
        out,
        rw (good, call, missing, get_vma_by_num-one a.mm vma 0 areas h.number, first) e,
        record {
          succeeds = placed'.succeeds;
          region = placed'.region;
          whole = placed'.whole;
          table = placed'.table ∙ ap (λ rs. set rs rgid placed'.region) same;
          vma = placed'.vma;
          heap = placed'.heap;
          keeps =
              Keeps-trans {b = after}
                (Keeps-same
                  (get_free_vmrg_area-pgd caller.mm 0 size (record junk { vmaid = sext 0 }) call)
                  refl)
                placed'.keeps;
          break_bound = placed'.break_bound;
          end_bound = placed'.end_bound;
        },
      )

  -- In a heap whose regions are apart, for a symbol number inside the table, a size above 0, and room
  -- in the addresses and the page table, `__alloc` always returns, and succeeds, even when RAM has no
  -- frame for the new pages. The symbol gets a new region of the size, the other symbols keep theirs,
  -- and the regions are apart again: no byte is in two symbols, in two free regions, or in one of each,
  -- and none is behind the break, which moves by at most twice the page-aligned size. If no two pages
  -- of the system shared a frame before, none do now.
  pub alloc-Placed :
      (out : Alloc) × (alloc caller 0 rgid size junk ≡ some out) × Placed caller vma rgid size out
  alloc-Placed =
      let z : sext size ≡ size = ground (arith, room.small) in
      let wrap =
        Bounded-NoWrap (sext size) vma.vm_freerg_list (omega (arith, z, room.small)) h.bounded in
      let (a, call, answer, same) =
        get_free_vmrg_area-Answer caller.mm vma size (record junk { vmaid = sext 0 }) h.one h.number
          (omega (arith, z)) wrap in
      let with_list : (left : List Region)
          → set caller.mm.mmap 0 (record vma { vm_freerg_list = left })
            ≡ record vma { vm_freerg_list = left } ∷ [] =
        λ left. ap (λ vmas. set vmas 0 (record vma { vm_freerg_list = left })) h.one in
      elim answer [
        | Answer.refused result none_ (inl e) ↦ alloc-refused a call result (e ∙ h.one) same
        | Answer.refused result none_ (inr e) ↦
            alloc-refused a call result (e ∙ with_list vma.vm_freerg_list) same
        | Answer.found left result taken splits areas small ↦
            let (out, e, r, tables, ram) =
              alloc-found caller vma rgid size junk valid (omega (arith, h.table)) a left call
                result taken splits (areas ∙ with_list left) same small in
            (
              out,
              e,
              record {
                succeeds = r.succeeds;
                region = r.region;
                whole =
                    taken_whole (sext size) vma.vm_freerg_list r.region r.taken ∙ omega (arith, z);
                table = r.table;
                vma = record vma { vm_freerg_list = r.left };
                heap =
                    IsHeap-taken rgid r.left r.region h r.areas r.table r.splits
                      (r.small h.bounded);
                keeps =
                    Keeps-same
                      (tables
                        ∙ get_free_vmrg_area-pgd caller.mm 0 size (record junk { vmaid = sext 0 })
                            call)
                      ram;
                break_bound = omega arith;
                end_bound = omega arith;
              },
            )
      ]
