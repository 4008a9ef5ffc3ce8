-- ===== src/Vm/Limit.antt =====
-- `inc_vma_limit` on the one area of a space that `init_mm` made: the break, the end of the area, and
-- the pages.
use mathlib.Core.List.{reverse}
use simple_32bit_os.Base.{
  ℕ, ◌+◌, ◌/◌, ◌<◌, ◌≤◌, ◌^◌, ◌≡◌, ◌≢◌, refl, ◌∙◌, some, [], ◌∷◌, ◌==◌, arith, true, false,
  minus_one, u32, u64, sext, length, take, drop, int_add, int_div,
}
use simple_32bit_os.Pte.{pagesz, max_pgn, addr_pgn, page_alignsz}
use simple_32bit_os.Memory.{Vma, Mm, Caller, set_vma}
use simple_32bit_os.Mm.Alloc.{with_free}
use simple_32bit_os.Mm.Map.{Maps, vm_map_ram-Maps}
use simple_32bit_os.Vm.{
  area_at_brk, get_vm_area_node_at_brk, validate_overlap_vm_area, inc_vma_limit, validate_from,
  overlaps, grow,
}
use simple_32bit_os.Vm.Areas.{Meets, Clear, validate_overlap_vm_area_iff, get_vma_by_num-one}

-- A space with one area, number 0, whose addresses and whose growth by `amount` fit an `int`.
pub record IsOne (caller : Caller) (vma : Vma) (amount : ℕ) : Type 0 where
  pub one : caller.mm.mmap ≡ vma ∷ []
  pub number : vma.vm_id ≡ 0
  pub bounded : vma.vm_start ≤ vma.vm_end
  pub small_sbrk : vma.sbrk + amount < 2 ^ 31
  pub small_end : vma.vm_end + amount < 2 ^ 31

abbrev pub with_area : Caller → Vma → Caller
with_area caller vma = record caller { mm = record caller.mm { mmap = vma ∷ [] } }

-- The area with its break moved by `amount`, and with its end moved too.
abbrev pub broken : Vma → ℕ → Vma
broken vma amount = record vma { sbrk = vma.sbrk + amount }

abbrev pub grown : Vma → ℕ → Vma
grown vma amount = record vma { sbrk = vma.sbrk + amount; vm_end = vma.vm_end + amount }

module _ (caller : Caller) (vma : Vma) (amount : ℕ) (is : IsOne caller vma amount) where
  node_at_brk :
      (size : ℕ)
      → get_vm_area_node_at_brk caller 0 size amount
        ≡ some (
          some (record { rg_start = vma.sbrk; rg_end = vma.sbrk + amount }),
          with_area caller (broken vma amount),
        )
  unfolding get_vm_area_node_at_brk area_at_brk set_vma
  node_at_brk size =
      let top : u64 (vma.sbrk + sext amount) ≡ vma.sbrk + amount = ground (arith, is.small_sbrk) in
      rw (get_vma_by_num-one caller.mm vma 0 is.one is.number, is.one, top)

-- The call up to its last part: the break has moved before anything is tested.
pub inc_vma_limit-grow :
    (caller : Caller) (vma : Vma) (inc_sz : ℕ)
    → inc_sz + 255 < 2 ^ 31
    → IsOne caller vma (page_alignsz inc_sz)
    → inc_vma_limit caller 0 inc_sz
      ≡ grow
          (with_area caller (broken vma (page_alignsz inc_sz)))
          0
          0
          (broken vma (page_alignsz inc_sz))
          (record { rg_start = vma.sbrk; rg_end = vma.sbrk + page_alignsz inc_sz })
          vma.vm_end
          (page_alignsz inc_sz)
          (page_alignsz inc_sz / pagesz)
unfolding inc_vma_limit
inc_vma_limit-grow caller vma inc_sz small is =
    let amt = page_alignsz inc_sz in
    let end_ : u32 vma.vm_end ≡ vma.vm_end = omega (arith, is.small_end) in
    let pages : int_div amt pagesz ≡ amt / pagesz = ground (arith, is.small_end) in
    let after = with_area caller (broken vma amt) in
    rw (
      node_at_brk caller vma amt is inc_sz,
      get_vma_by_num-one after.mm (broken vma amt) 0 refl is.number,
      end_,
      pages,
    )

-- In a space with one area, number 0, whose addresses stay inside an `int`: when the area is not
-- empty and meets the range of the new pages, `inc_vma_limit` fails, and the break has moved by the
-- aligned size all the same.
pub inc_vma_limit-overlap :
    (caller : Caller) (vma : Vma) (inc_sz : ℕ)
    → inc_sz + 255 < 2 ^ 31
    → IsOne caller vma (page_alignsz inc_sz)
    → vma.vm_start ≢ vma.vm_end
    → Meets vma vma.sbrk (vma.sbrk + page_alignsz inc_sz)
    → inc_vma_limit caller 0 inc_sz
      ≡ some (record {
        result = minus_one;
        caller = with_area caller (broken vma (page_alignsz inc_sz));
      })
unfolding grow validate_overlap_vm_area validate_from overlaps
inc_vma_limit-overlap caller vma inc_sz small is full (x, a, b, c, d) =
    let amt = page_alignsz inc_sz in
    let s : u32 vma.sbrk ≡ vma.sbrk = omega (arith, is.small_sbrk) in
    let e : u32 (vma.sbrk + amt) ≡ vma.sbrk + amt = omega (arith, is.small_sbrk) in
    let test : (vma.vm_start == vma.vm_end) ≡ false = ground arith in
    let over : overlaps vma vma.sbrk (vma.sbrk + amt) ≡ true =
      ground (arith, is.small_sbrk, is.bounded) in
    inc_vma_limit-grow caller vma inc_sz small is ∙ rw (s, e, test, over)

-- In a space with one area, number 0, whose addresses stay inside an `int`: when the area is empty,
-- or has no address of the range of the new pages, and there are frames for these pages and room in
-- the page table, `inc_vma_limit` succeeds. Break and end have moved by the aligned size, and the
-- pages behind the old end are mapped to the first free frames, which are taken.
pub inc_vma_limit-Maps :
    (caller : Caller) (vma : Vma) (inc_sz : ℕ)
    → inc_sz + 255 < 2 ^ 31
    → IsOne caller vma (page_alignsz inc_sz)
    → Clear vma vma.sbrk (vma.sbrk + page_alignsz inc_sz)
    → page_alignsz inc_sz / pagesz ≤ length caller.mram.free_fp_list
    → addr_pgn vma.vm_end + page_alignsz inc_sz / pagesz ≤ max_pgn
    → (mm' : Mm) × (inc_vma_limit caller 0 inc_sz
        ≡ some (record {
          result = 0;
          caller = record caller {
            mm = mm';
            mram =
                with_free caller.mram
                  (drop (page_alignsz inc_sz / pagesz) caller.mram.free_fp_list);
          };
        }))
      × Maps
          (with_area caller (grown vma (page_alignsz inc_sz))).mm
          (addr_pgn vma.vm_end)
          (reverse (take (page_alignsz inc_sz / pagesz) caller.mram.free_fp_list))
          mm'
unfolding grow set_vma
inc_vma_limit-Maps caller vma inc_sz small is clear enough inside =
    let amt = page_alignsz inc_sz in
    let s : u32 vma.sbrk ≡ vma.sbrk = omega (arith, is.small_sbrk) in
    let e : u32 (vma.sbrk + amt) ≡ vma.sbrk + amt = omega (arith, is.small_sbrk) in
    let top : sext (int_add vma.vm_end amt) ≡ vma.vm_end + amt = ground (arith, is.small_end) in
    let after = with_area caller (broken vma amt) in
    let valid : validate_overlap_vm_area after 0 vma.sbrk (vma.sbrk + amt) ≡ 0 =
      (validate_overlap_vm_area_iff after 0 vma.sbrk (vma.sbrk + amt) (omega arith) is.small_sbrk
          (is.bounded, tt)).1
        (clear, tt) in
    let (mm', call, maps) =
      vm_map_ram-Maps (with_area caller (grown vma amt)) vma.sbrk (vma.sbrk + amt) vma.vm_end
        (amt / pagesz) enough inside in
    (mm', inc_vma_limit-grow caller vma inc_sz small is ∙ rw (s, e, valid, top, call), maps)
