-- ===== src/Libmem/Alloc/Disjoint/Break.antt =====
-- The bytes behind the break: `__alloc` keeps the regions of the heap apart when no free region fits.
use simple_32bit_os.Base.{
  ℕ, ◌+◌, ◌-◌, ◌*◌, ◌/◌, ◌<◌, ◌≤◌, ◌^◌, ◌≡◌, refl, ap, ◌∙◌, inl, inr, Bool-cases, some, [], ◌∷◌,
  arith, ltb, true, false, length, set, length-set, u32, u64, sext, int_le, int_add,
}
use simple_32bit_os.Pte.{pagesz, max_pgn, addr_pgn, page_alignsz}
use simple_32bit_os.Pte.Fields.{page_alignsz_lem, page_alignsz-page_alignsz}
use simple_32bit_os.Memory.{Region, Vma, Caller, Return, max_symtbl_sz, set_vma}
use simple_32bit_os.Mm.Isolated.Keeps.{Keeps, Keeps-same, Keeps-trans}
use simple_32bit_os.Vm.{inc_vma_limit}
use simple_32bit_os.Vm.Limit.{IsOne}
use simple_32bit_os.Vm.Grown.{Grown, inc_vma_limit-Grown}
use simple_32bit_os.Libmem.FreeList.{set_symrg}
use simple_32bit_os.Libmem.FreeList.Search.{cover}
use simple_32bit_os.Libmem.Alloc.{Alloc, alloc_heap, commit, move_sbrk}
use simple_32bit_os.Libmem.Alloc.Heap.{at_break}
use simple_32bit_os.Libmem.Alloc.Disjoint.{IsHeap, cover-set_le, covers-at_break}

-- `__alloc` has succeeded in a heap with the area `old`: symbol `rgid`, and no other, is a new region of
-- `size` bytes, the regions are apart, the frames stay isolated, and break and end have not moved far.
pub record Placed (caller : Caller) (old : Vma) (rgid size : ℕ) (out : Alloc) : Type 0 where
  pub succeeds : out.result ≡ 0
  pub region : Region
  pub whole : region.rg_end ≡ region.rg_start + size
  pub table : out.caller.mm.symrgtbl ≡ set caller.mm.symrgtbl rgid region
  pub vma : Vma
  pub heap : IsHeap out.caller vma
  pub keeps : Keeps caller out.caller
  pub break_bound : vma.sbrk ≤ old.sbrk + 2 * page_alignsz size
  pub end_bound : vma.vm_end ≤ old.vm_end + page_alignsz size

-- There is room in the addresses and in the page table for the pages of a size.
pub record HasRoom (vma : Vma) (size : ℕ) : Type 0 where
  pub small : size + 511 < 2 ^ 31
  pub above_break : vma.sbrk + 2 * page_alignsz size < 2 ^ 31
  pub above_end : vma.vm_end + 2 * page_alignsz size < 2 ^ 31
  pub pages : addr_pgn vma.vm_end + page_alignsz size / pagesz ≤ max_pgn

-- The result with a region for a symbol and an area.
abbrev placed : Caller → Vma → (rgid : ℕ) → Region → (rgnode : Region) → Alloc
placed caller area rgid rg rgnode = record {
  result = 0;
  alloc_addr = some (u32 rgnode.rg_start);
  caller = record caller {
    mm = record caller.mm { mmap = area ∷ []; symrgtbl = set caller.mm.symrgtbl rgid rg };
  };
}

-- The heap when a symbol gets the bytes behind the break, and the break moves over them.
IsHeap-at_break :
    {caller caller' : Caller} {vma : Vma} (rgid size top end_ : ℕ)
    → IsHeap caller vma
    → caller'.mm.mmap ≡ record vma { sbrk = top; vm_end = end_ } ∷ []
    → caller'.mm.symrgtbl ≡ set caller.mm.symrgtbl rgid (at_break vma size)
    → vma.sbrk + size ≤ top
    → top < 2 ^ 63
    → vma.vm_end ≤ end_
    → IsHeap caller' (record vma { sbrk = top; vm_end = end_ })
IsHeap-at_break {caller} {caller'} {vma} rgid size top end_ h areas table above small larger =
    record {
      one = areas;
      number = h.number;
      ordered = omega (arith, h.ordered);
      table = ap length table ∙ length-set caller.mm.symrgtbl rgid (at_break vma size) ∙ h.table;
      once = λ x.
          let new = covers-at_break vma size x in
          let grows = cover-set_le caller.mm.symrgtbl rgid (at_break vma size) x in
          let e : cover caller'.mm.symrgtbl x
              ≡ cover (set caller.mm.symrgtbl rgid (at_break vma size)) x =
            ap (λ rs. cover rs x) table in
          elim (Bool-cases (ltb x vma.sbrk)) [
            | inl under ↦ omega (arith, e, grows, h.once x, new.1 (ground arith))
            | inr over ↦ omega (arith, e, grows, h.below x (ground arith), new.0)
          ];
      below = λ x le.
          let new = covers-at_break vma size x in
          let grows = cover-set_le caller.mm.symrgtbl rgid (at_break vma size) x in
          let e : cover caller'.mm.symrgtbl x
              ≡ cover (set caller.mm.symrgtbl rgid (at_break vma size)) x =
            ap (λ rs. cover rs x) table in
          omega (arith, e, grows, h.below x (omega arith), new.2 (omega arith));
      bounded = h.bounded;
      small = small;
    }

module _ (caller : Caller) (vma : Vma) (rgid size : ℕ) (h : IsHeap caller vma)
    (valid : rgid < max_symtbl_sz) (room : HasRoom vma size) where
  abbrev Succeeds : Region → Type 0
  Succeeds rgnode =
      (out : Alloc) × (alloc_heap caller 0 vma 0 rgid size rgnode ≡ some out)
      × Placed caller vma rgid size out

  -- The bytes behind the break are inside the area.
  alloc_heap-inside :
      (rgnode : Region)
      → int_le size (u32 (vma.vm_end + 2 ^ 64 - vma.sbrk)) ≡ true
      → Succeeds rgnode
  unfolding alloc_heap commit move_sbrk set_symrg set_vma
  alloc_heap-inside rgnode fits =
      let above = (page_alignsz_lem size (omega (arith, room.small))).1 in
      let s : u32 vma.sbrk ≡ vma.sbrk = omega (arith, room.above_break) in
      let s' : sext vma.sbrk ≡ vma.sbrk = ground (arith, room.above_break) in
      let z : sext size ≡ size = ground (arith, room.small) in
      let inside : ltb rgid (length caller.mm.symrgtbl) ≡ true = ground (arith, h.table) in
      let end_ : sext (int_add vma.sbrk size) ≡ vma.sbrk + size =
        ground (arith, room.above_break, above) in
      let top : u64 (vma.sbrk + size) ≡ vma.sbrk + size = omega (arith, room.above_break, above) in
      (
        placed caller (record vma { sbrk = vma.sbrk + size }) rgid (at_break vma size) rgnode,
        rw (s, s', z, fits, h.one, top, end_, inside) refl,
        record {
          succeeds = refl;
          region = at_break vma size;
          whole = refl;
          table = refl;
          vma = record vma { sbrk = vma.sbrk + size };
          heap =
              IsHeap-at_break rgid size (vma.sbrk + size) vma.vm_end h refl refl (omega arith)
                (omega (arith, room.above_break, above)) (omega arith);
          keeps = Keeps-same refl refl;
          break_bound = omega (arith, above);
          end_bound = omega arith;
        },
      )

  -- `inc_vma_limit` was called; `amt` is what it added to the break.
  alloc_heap-outside :
      (rgnode : Region) (r : Return) (amt : ℕ)
      → int_le size (u32 (vma.vm_end + 2 ^ 64 - vma.sbrk)) ≡ false
      → inc_vma_limit caller 0 (page_alignsz size) ≡ some r
      → Grown caller vma amt r
      → vma.sbrk + amt + size < 2 ^ 31
      → amt ≡ page_alignsz size
      → size ≤ page_alignsz size
      → Succeeds rgnode
  unfolding alloc_heap commit move_sbrk set_symrg set_vma
  alloc_heap-outside rgnode r amt fails call g below equal less =
      let s : u32 vma.sbrk ≡ vma.sbrk = omega arith in
      let s' : sext vma.sbrk ≡ vma.sbrk = ground arith in
      let z : sext size ≡ size = ground arith in
      let inside : ltb rgid (length r.caller.mm.symrgtbl) ≡ true =
        ground (arith, h.table, ap length g.symbols) in
      let end_ : sext (int_add vma.sbrk size) ≡ vma.sbrk + size = ground arith in
      let top : u64 (vma.sbrk + amt + size) ≡ vma.sbrk + amt + size = omega arith in
      let symbols = ap (λ rs. set rs rgid (at_break vma size)) g.symbols in
      (
        placed r.caller (record vma { sbrk = vma.sbrk + amt + size; vm_end = g.end_ }) rgid
            (at_break vma size) rgnode,
        rw (s, s', z, fails, call, end_, inside, g.area, top) refl,
        record {
          succeeds = refl;
          region = at_break vma size;
          whole = refl;
          table = symbols;
          vma = record vma { sbrk = vma.sbrk + amt + size; vm_end = g.end_ };
          heap =
              IsHeap-at_break rgid size (vma.sbrk + amt + size) g.end_ h refl symbols (omega arith)
                (omega arith) g.low;
          keeps = Keeps-trans g.keeps (Keeps-same refl refl);
          break_bound = omega (arith, less, equal);
          end_bound = omega (arith, g.high, equal);
        },
      )

  pub alloc_heap-Placed : (rgnode : Region) → Succeeds rgnode
  alloc_heap-Placed rgnode =
      let amt = page_alignsz size in
      let (aligned, above, near) = page_alignsz_lem size (omega (arith, room.small)) in
      let again = page_alignsz-page_alignsz size room.small in
      let is : IsOne caller vma (page_alignsz amt) = record {
        one = h.one;
        number = h.number;
        bounded = h.ordered;
        small_sbrk = omega (arith, room.above_break, again);
        small_end = omega (arith, room.above_end, again);
      } in
      let (r, call, g) =
        inc_vma_limit-Grown caller vma amt (omega (arith, room.small, near)) is
          (omega (arith, room.pages, again)) in
      elim (Bool-cases (int_le size (u32 (vma.vm_end + 2 ^ 64 - vma.sbrk)))) [
        | inl fits ↦ alloc_heap-inside rgnode fits
        | inr fails ↦
            alloc_heap-outside rgnode r (page_alignsz amt) fails call g
              (omega (arith, room.above_break, above, again)) again above
      ]
