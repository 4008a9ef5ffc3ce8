-- ===== src/Libmem/Alloc/Reuse.antt =====
-- `__alloc` when a free region can be used again.
use simple_32bit_os.Base.{
  ℕ, All, ◌<◌, ◌≡◌, refl, ap, ◌∙◌, some, arith, ltb, ◌==◌, ◌||◌, true, false, u32, is_neg, sext,
  List, [], ◌∷◌, get_elem?, length, set, get_elem?-set_self,
}
use simple_32bit_os.Memory.{Region, Vma, Caller, max_symtbl_sz}
use simple_32bit_os.Libmem.FreeList.{FreeArea, get_free_vmrg_area, bad_rgid, set_symrg}
use simple_32bit_os.Libmem.FreeList.Search.{NoneFits, NoWrap, TakenFrom, Splits}
use simple_32bit_os.Libmem.FreeList.Bounded.{Bounded}
use simple_32bit_os.Libmem.FreeList.Fit.{Answer, get_free_vmrg_area-Answer}
use simple_32bit_os.Libmem.Alloc.{Alloc, alloc, commit}

-- Symbol `rgid` of the table `symbols` is now a region that was taken from the free list of `vma`, and
-- the address is its start. `left` is the free list now.
pub record Reused (n rgid : ℕ) (vma : Vma) (symbols : List Region) (out : Alloc) : Type 0 where
  pub succeeds : out.result ≡ 0
  pub region : Region
  pub left : List Region
  pub taken : TakenFrom n vma.vm_freerg_list region
  pub splits : Splits vma.vm_freerg_list left region
  pub symbol : get_elem? out.caller.mm.symrgtbl rgid ≡ some region
  pub table : out.caller.mm.symrgtbl ≡ set symbols rgid region
  pub small : All Bounded vma.vm_freerg_list → All Bounded left
  pub areas : out.caller.mm.mmap ≡ record vma { vm_freerg_list = left } ∷ []
  pub address : out.alloc_addr ≡ some (u32 region.rg_start)

module _ (caller : Caller) (vma : Vma) (rgid size : ℕ) (junk : Region)
    (valid : rgid < max_symtbl_sz) (inside : rgid < length caller.mm.symrgtbl) where
  -- The call when the search has succeeded.
  pub alloc-found :
      (a : FreeArea) (left : List Region)
      → get_free_vmrg_area caller.mm 0 size (record junk { vmaid = sext 0 }) ≡ some a
      → a.result ≡ 0
      → TakenFrom (sext size) vma.vm_freerg_list a.newrg
      → Splits vma.vm_freerg_list left a.newrg
      → a.mm.mmap ≡ record vma { vm_freerg_list = left } ∷ []
      → a.mm.symrgtbl ≡ caller.mm.symrgtbl
      → (All Bounded vma.vm_freerg_list → All Bounded left)
      → (out : Alloc) × (alloc caller 0 rgid size junk ≡ some out)
        × Reused (sext size) rgid vma caller.mm.symrgtbl out
        × (out.caller.mm.pgd ≡ a.mm.pgd)
        × (out.caller.mram ≡ caller.mram)
  unfolding alloc bad_rgid commit set_symrg
  alloc-found a left call result taken splits areas same small =
      let good : (is_neg rgid || ltb max_symtbl_sz rgid) ≡ false = ground (arith, valid) in
      let found : (a.result == 0) ≡ true = ground (arith, result) in
      let room : rgid < length a.mm.symrgtbl = omega (arith, ap length same, inside) in
      let test : ltb rgid (length a.mm.symrgtbl) ≡ true = ground (arith, room) in
      (
        record {
          result = 0;
          alloc_addr = some (u32 a.newrg.rg_start);
          caller = record caller { mm = record a.mm { symrgtbl = set a.mm.symrgtbl rgid a.newrg } };
        },
        rw (good, call, found, test) refl,
        record {
          succeeds = refl;
          region = a.newrg;
          left = left;
          taken = taken;
          splits = splits;
          symbol = get_elem?-set_self a.mm.symrgtbl rgid a.newrg room;
          table = ap (λ symbols. set symbols rgid a.newrg) same;
          small = small;
          areas = areas;
          address = refl;
        },
        refl,
        refl,
      )

-- In a space with one area, number 0, when the symbol number is inside the table, the size is not 0
-- and fits in a free region that no region of another area stands before, and no bound of a free
-- region wraps when the size is added, `__alloc` succeeds: the symbol gets the first bytes of such
-- a free region, and the address is their start; the other symbols stay. No address is then in the free regions and the new
-- one more often than it was in the free regions before.
pub alloc-Reused :
    (caller : Caller) (vma : Vma) (rgid size : ℕ) (junk : Region)
    → caller.mm.mmap ≡ vma ∷ []
    → vma.vm_id ≡ 0
    → rgid < max_symtbl_sz
    → rgid < length caller.mm.symrgtbl
    → 0 < sext size
    → NoWrap (sext size) vma.vm_freerg_list
    → ¬ NoneFits 0 (sext size) vma.vm_freerg_list
    → (out : Alloc) × (alloc caller 0 rgid size junk ≡ some out)
      × Reused (sext size) rgid vma caller.mm.symrgtbl out
alloc-Reused caller vma rgid size junk one number valid inside pos wrap fits =
    let (a, call, answer, same) =
      get_free_vmrg_area-Answer caller.mm vma size (record junk { vmaid = sext 0 }) one number pos
        wrap in
    elim answer [
      | Answer.refused result none_ same_areas ↦ absurd (fits none_)
      | Answer.found left result taken splits areas small ↦
          let (out, e, reused, _, _) =
            alloc-found caller vma rgid size junk valid inside a left call result taken splits
              (areas ∙ ap (λ vmas. set vmas 0 (record vma { vm_freerg_list = left })) one) same
              small in
          (out, e, reused)
    ]
