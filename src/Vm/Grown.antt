-- ===== src/Vm/Grown.antt =====
-- What `inc_vma_limit` leaves of the one area of a space, whether the area grows, meets the new pages,
-- or there are too few frames.
use simple_32bit_os.Base.{
  ℕ, ◌+◌, ◌/◌, ◌<◌, ◌≤◌, ◌^◌, ◌≡◌, refl, ◌∙◌, inl, inr, Bool-cases, some, [], ◌∷◌, arith, leb,
  minus_one, u32, sext, length, drop, int_add, int_lt,
}
use simple_32bit_os.Pte.{pagesz, max_pgn, addr_pgn, page_alignsz}
use simple_32bit_os.Memory.{Vma, Caller, Return, set_vma}
use simple_32bit_os.Mm.Alloc.{with_free}
use simple_32bit_os.Mm.Map.{vm_map_ram-Maps, vm_map_ram-short}
use simple_32bit_os.Mm.Isolated.Keeps.{Keeps, Keeps-same, Keeps-none, Keeps-Maps, Keeps-trans}
use simple_32bit_os.Vm.{validate_overlap_vm_area, inc_vma_limit, grow}
use simple_32bit_os.Vm.Limit.{IsOne, with_area, broken, grown, inc_vma_limit-grow}

-- The break has moved by `amount`, the end has moved as far or not at all, the symbols and the free
-- regions are the same, and the frames stay isolated.
pub record Grown (caller : Caller) (vma : Vma) (amount : ℕ) (r : Return) : Type 0 where
  pub end_ : ℕ
  pub area : r.caller.mm.mmap ≡ record vma { sbrk = vma.sbrk + amount; vm_end = end_ } ∷ []
  pub low : vma.vm_end ≤ end_
  pub high : end_ ≤ vma.vm_end + amount
  pub symbols : r.caller.mm.symrgtbl ≡ caller.mm.symrgtbl
  pub keeps : Keeps caller r.caller

-- In a space with one area, number 0, whose addresses stay inside an `int`, and with room in the page
-- table, `inc_vma_limit` returns, and the break has moved by the aligned size whatever happens.
pub inc_vma_limit-Grown :
    (caller : Caller) (vma : Vma) (inc_sz : ℕ)
    → inc_sz + 255 < 2 ^ 31
    → IsOne caller vma (page_alignsz inc_sz)
    → addr_pgn vma.vm_end + page_alignsz inc_sz / pagesz ≤ max_pgn
    → (r : Return) × (inc_vma_limit caller 0 inc_sz ≡ some r)
      × Grown caller vma (page_alignsz inc_sz) r
unfolding grow set_vma
inc_vma_limit-Grown caller vma inc_sz small is inside =
    let amt = page_alignsz inc_sz in
    let pages = amt / pagesz in
    let s : u32 vma.sbrk ≡ vma.sbrk = omega (arith, is.small_sbrk) in
    let e : u32 (vma.sbrk + amt) ≡ vma.sbrk + amt = omega (arith, is.small_sbrk) in
    let top : sext (int_add vma.vm_end amt) ≡ vma.vm_end + amt = ground (arith, is.small_end) in
    let after = with_area caller (broken vma amt) in
    let larger = with_area caller (grown vma amt) in
    let start = inc_vma_limit-grow caller vma inc_sz small is in
    elim (Bool-cases (int_lt (validate_overlap_vm_area after 0 vma.sbrk (vma.sbrk + amt)) 0)) [
      | inl meets ↦ (
        record { result = minus_one; caller = after },
        start ∙ rw (s, e, meets) refl,
        record {
          end_ = vma.vm_end;
          area = refl;
          low = omega arith;
          high = omega arith;
          symbols = refl;
          keeps = Keeps-same refl refl;
        },
      )
      | inr clear ↦ elim (Bool-cases (leb pages (length caller.mram.free_fp_list))) [
        | inl enough ↦
            let (mm', call, maps) =
              vm_map_ram-Maps larger vma.sbrk (vma.sbrk + amt) vma.vm_end pages (ground arith)
                inside in
            (
              record {
                result = 0;
                caller = record larger {
                  mm = mm';
                  mram = with_free caller.mram (drop pages caller.mram.free_fp_list);
                };
              },
              start ∙ rw (s, e, clear, top, call) refl,
              record {
                end_ = vma.vm_end + amt;
                area = maps.same_areas;
                low = omega arith;
                high = omega arith;
                symbols = maps.same_symbols;
                keeps =
                    Keeps-trans {b = larger} (Keeps-same refl refl)
                      (Keeps-Maps larger mm' (addr_pgn vma.vm_end) pages (ground arith) maps);
              },
            )
        | inr short ↦
            let call =
              vm_map_ram-short larger vma.sbrk (vma.sbrk + amt) vma.vm_end pages
                (omega (arith, is.small_end)) (ground arith) in
            (
              record {
                result = minus_one;
                caller = record larger { mram = with_free caller.mram [] };
              },
              start ∙ rw (s, e, clear, top, call) refl,
              record {
                end_ = vma.vm_end + amt;
                area = refl;
                low = omega arith;
                high = omega arith;
                symbols = refl;
                keeps = Keeps-none refl refl;
              },
            )
      ]
    ]
