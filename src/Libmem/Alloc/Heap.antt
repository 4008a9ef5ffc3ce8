-- ===== src/Libmem/Alloc/Heap.antt =====
-- `__alloc` on the heap, behind a search that found nothing: inside the area, and when the area
-- cannot grow.
use simple_32bit_os.Base.{
  ℕ, ◌+◌, ◌-◌, ◌*◌, ◌<◌, ◌≤◌, ◌^◌, ◌≡◌, ◌≢◌, sym, ap, ◌∙◌, some, arith, ltb, true, false, minus_one,
  u32, u64, sext, int_le, int_add, [], ◌∷◌, length, set, subst,
}
use simple_32bit_os.Pte.{page_alignsz}
use simple_32bit_os.Pte.Fields.{page_alignsz_lem, page_alignsz-page_alignsz}
use simple_32bit_os.Memory.{Region, Vma, Caller, set_vma}
use simple_32bit_os.Vm.{inc_vma_limit}
use simple_32bit_os.Vm.Areas.{Meets}
use simple_32bit_os.Vm.Limit.{IsOne, with_area, broken, inc_vma_limit-overlap}
use simple_32bit_os.Libmem.FreeList.{set_symrg}
use simple_32bit_os.Libmem.Alloc.{alloc_heap, commit, move_sbrk}

-- The caller with the break of its only area at `top` and a region for a symbol.
abbrev pub allocated : Caller → Vma → (top rgid : ℕ) → Region → Caller
allocated caller vma top rgid rg = record caller {
  mm = record caller.mm {
    mmap = record vma { sbrk = top } ∷ [];
    symrgtbl = set caller.mm.symrgtbl rgid rg;
  };
}

abbrev pub at_break : Vma → (size : ℕ) → Region
at_break vma size = record { vmaid = 0; rg_start = vma.sbrk; rg_end = vma.sbrk + size }

module _ (caller : Caller) (vma : Vma) (rgid size : ℕ) (rgnode : Region)
    (one : caller.mm.mmap ≡ vma ∷ []) (symbol : rgid < length caller.mm.symrgtbl) where
  -- In a space with one area whose end is inside an `int`, for a symbol inside the table, and with
  -- room between the break and the end of the area, the heap branch of `__alloc` gives the symbol
  -- the bytes behind the break, which moves to their end. The address that the caller gets is the
  -- start of `rgnode`, which the search has left, not of the region.
  pub alloc_heap-room :
      vma.vm_end < 2 ^ 31
      → vma.sbrk + size ≤ vma.vm_end
      → alloc_heap caller 0 vma 0 rgid size rgnode
        ≡ some (record {
          result = 0;
          alloc_addr = some (u32 rgnode.rg_start);
          caller = allocated caller vma (vma.sbrk + size) rgid (at_break vma size);
        })
  unfolding alloc_heap commit move_sbrk set_symrg set_vma
  alloc_heap-room small room =
      let s : u32 vma.sbrk ≡ vma.sbrk = omega arith in
      let s' : sext vma.sbrk ≡ vma.sbrk = ground arith in
      let z : sext size ≡ size = ground arith in
      let fits : int_le size (u32 (vma.vm_end + 2 ^ 64 - vma.sbrk)) ≡ true = ground arith in
      let top : u64 (vma.sbrk + size) ≡ vma.sbrk + size = omega arith in
      let end_ : sext (int_add vma.sbrk size) ≡ vma.sbrk + size = ground arith in
      let inside : ltb rgid (length caller.mm.symrgtbl) ≡ true = ground (arith, symbol) in
      rw (s, s', z, fits, one, top, end_, inside)

-- When the only area, number 0, is not empty and meets the pages behind its break, so that it
-- cannot grow, the break is not above its end, the size does not fit between them, and the
-- addresses stay inside an `int`, `__alloc` on the heap succeeds all the same: the symbol gets the
-- bytes behind the break, the end of the area stays below the last of them, no page is mapped, and
-- the break has moved by the size and by the aligned size.
pub alloc_heap-overlap :
    (caller : Caller) (vma : Vma) (rgid size : ℕ) (rgnode : Region)
    → rgid < length caller.mm.symrgtbl
    → size + 511 < 2 ^ 31
    → IsOne caller vma (2 * page_alignsz size)
    → vma.sbrk ≤ vma.vm_end
    → vma.vm_end < vma.sbrk + size
    → vma.vm_start ≢ vma.vm_end
    → Meets vma vma.sbrk (vma.sbrk + page_alignsz size)
    → alloc_heap caller 0 vma 0 rgid size rgnode
      ≡ some (record {
        result = 0;
        alloc_addr = some (u32 rgnode.rg_start);
        caller =
            allocated caller vma (vma.sbrk + page_alignsz size + size) rgid (at_break vma size);
      })
unfolding alloc_heap commit move_sbrk set_symrg set_vma
alloc_heap-overlap caller vma rgid size rgnode symbol small is below short full meets =
    let amt = page_alignsz size in
    let (aligned, above, near) = page_alignsz_lem size (omega arith) in
    let again = page_alignsz-page_alignsz size small in
    let is' : IsOne caller vma (page_alignsz amt) = record {
      one = is.one;
      number = is.number;
      bounded = is.bounded;
      small_sbrk = omega (arith, is.small_sbrk);
      small_end = omega (arith, is.small_end);
    } in
    let meets' : Meets vma vma.sbrk (vma.sbrk + page_alignsz amt) =
      subst (λ (n : ℕ). Meets vma vma.sbrk (vma.sbrk + n)) (sym again) meets in
    let call : inc_vma_limit caller 0 amt
        ≡ some (record { result = minus_one; caller = with_area caller (broken vma amt) }) =
      inc_vma_limit-overlap caller vma amt (omega arith) is' full meets'
      ∙ ap
          (λ (n : ℕ).
            some (record { result = minus_one; caller = with_area caller (broken vma n) }))
          again in
    let s : u32 vma.sbrk ≡ vma.sbrk = omega (arith, is.small_sbrk) in
    let s' : sext vma.sbrk ≡ vma.sbrk = ground (arith, is.small_sbrk) in
    let z : sext size ≡ size = ground arith in
    let fits : int_le size (u32 (vma.vm_end + 2 ^ 64 - vma.sbrk)) ≡ false =
      ground (arith, is.small_end) in
    let top : u64 (vma.sbrk + amt + size) ≡ vma.sbrk + amt + size = omega (arith, is.small_sbrk) in
    let end_ : sext (int_add vma.sbrk size) ≡ vma.sbrk + size = ground (arith, is.small_sbrk) in
    let inside : ltb rgid (length caller.mm.symrgtbl) ≡ true = ground (arith, symbol) in
    rw (s, s', z, fits, call, inside, top, end_)
