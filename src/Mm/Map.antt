-- ===== src/Mm/Map.antt =====
-- `vmap_page_range` writes one entry for each frame, and `vm_map_ram` puts the two steps together.
use mathlib.Core.List.{reverse, reverse_aux}
use simple_32bit_os.Base.{
  ℕ, zero, suc, ◌+◌, ◌-◌, ◌<◌, ◌≤◌, ◌^◌, ◌≡◌, refl, ap, ◌∙◌, none, some, List, [], ◌∷◌, arith,
  length, take, drop, minus_one, ltb, leb, ◌&&◌, if◌then◌else◌, get_or, true, int_lt, int_add,
  int_mul, subst, sext, ◌==◌, length-take,
}
use simple_32bit_os.Pte.{pagesz, max_pgn, pte_set_fpn, addr_pgn}
use simple_32bit_os.Memphy.{frames_from}
use simple_32bit_os.Memory.{Region, Mm, Caller, get_pte, set_pte}
use simple_32bit_os.Mm.{
  vmap_from, vmap_page_range, vm_map_ram, enlist_pgn_node, first_vm_id, Mapped,
}
use simple_32bit_os.Mm.Alloc.{with_free, alloc_pages_range-enough, alloc_pages_range-short}

-- `mm'` is `mm` with the pages from `first` on mapped to `frames` in order, and enlisted; the areas and
-- symbols and all other entries are as before.
pub record Maps (mm : Mm) (first : ℕ) (frames : List ℕ) (mm' : Mm) : Type 0 where
  pub entries :
      (p : ℕ)
      → mm'.pgd p ≡ (
          if leb first p && ltb p (first + length frames)
          then pte_set_fpn (mm.pgd p) (get_or frames (p - first) 0)
          else mm.pgd p)
  pub enlisted : mm'.fifo_pgn ≡ reverse_aux (frames_from (length frames) first) mm.fifo_pgn
  pub same_areas : mm'.mmap ≡ mm.mmap
  pub same_symbols : mm'.symrgtbl ≡ mm.symrgtbl

get_or-cons : (x : ℕ) (xs : List ℕ) (i : ℕ) → 0 < i → get_or (x ∷ xs) i 0 ≡ get_or xs (i - 1) 0
get_or-cons x xs zero h = absurd (omega arith)
get_or-cons x xs (suc i) h = ap (λ n. get_or xs n 0) {x = i} (omega arith)

get_or-first : (x : ℕ) (xs : List ℕ) (i : ℕ) → i ≡ 0 → get_or (x ∷ xs) i 0 ≡ x
get_or-first x xs i e = rw e

get_or-shift : (xs : List ℕ) (i j : ℕ) → i ≡ j → get_or xs i 0 ≡ get_or xs j 0
get_or-shift xs i j e = rw e

-- The space after the round for page `p`.
abbrev mapped_one : Mm → ℕ → ℕ → Mm
mapped_one mm p fpn = record mm {
  pgd = λ q. if q == p then pte_set_fpn (mm.pgd p) fpn else mm.pgd q;
  fifo_pgn = p ∷ mm.fifo_pgn;
}

module _ (start pgnum : ℕ) (small : start + pgnum ≤ max_pgn) where
  vmap_from-cons :
      (pgit fpn : ℕ) (frames : List ℕ) (mm : Mm)
      → pgit < pgnum
      → vmap_from (fpn ∷ frames) pgit start pgnum mm
        ≡ vmap_from frames (suc pgit) start pgnum (mapped_one mm (start + pgit) fpn)
  unfolding vmap_from get_pte set_pte enlist_pgn_node
  vmap_from-cons pgit fpn frames mm h =
      let page : int_add start pgit ≡ start + pgit = omega arith in
      let inside : ltb (start + pgit) max_pgn ≡ true = ground arith in
      let more : int_lt pgit pgnum ≡ true = ground arith in rw (more, page, inside)

  vmap_from-Maps :
      (frames : List ℕ) (pgit : ℕ) (mm : Mm)
      → pgit + length frames ≤ pgnum
      → (mm' : Mm) × (vmap_from frames pgit start pgnum mm ≡ some (pgit + length frames, mm'))
        × Maps mm (start + pgit) frames mm'
  vmap_from-Maps [] pgit mm h = (
    mm,
    unfold vmap_from in ap (λ (n : ℕ). some (n, mm)) {x = pgit} (omega arith),
    record {
      entries = λ p. ground arith;
      enlisted = unfold frames_from in refl;
      same_areas = refl;
      same_symbols = refl;
    },
  )
  vmap_from-Maps (f ∷ frames) pgit mm h =
      let (mm', e, maps) =
        vmap_from-Maps frames (suc pgit) (mapped_one mm (start + pgit) f) (omega arith) in
      (
        mm',
        vmap_from-cons pgit f frames mm (omega arith)
            ∙ e
            ∙ ap (λ (n : ℕ). some (n, mm')) {x = suc pgit + length frames} (omega arith),
        record {
          entries = λ p. ground (
            arith,
            maps.entries p,
            get_or-cons f frames (p - (start + pgit)),
            get_or-first f frames (p - (start + pgit)),
            get_or-shift frames (p - (start + suc pgit)) (p - (start + pgit) - 1),
          );
          enlisted =
              maps.enlisted
              ∙ unfold frames_from in
                ap
                  (λ (n : ℕ).
                    reverse_aux (frames_from (length frames) n) ((start + pgit) ∷ mm.fifo_pgn))
                  {x = start + suc pgit} (omega arith);
          same_areas = maps.same_areas;
          same_symbols = maps.same_symbols;
        },
      )

-- The region that `vmap_page_range` returns for `n` pages from the page of `addr` on.
abbrev pub region_of : Mm → (addr n : ℕ) → Region
region_of mm addr n = record {
  vmaid = first_vm_id mm.mmap;
  rg_start = sext addr;
  rg_end = sext (int_add addr (int_mul n pagesz));
}

-- With a frame for every page that is asked for, `vmap_page_range` maps all of them, the pages in
-- order to the frames in order, and returns the region that they make up.
pub vmap_page_range-Maps :
    (caller : Caller) (addr : ℕ) (frames : List ℕ)
    → addr_pgn addr + length frames ≤ max_pgn
    → (mm' : Mm) × (vmap_page_range caller addr (length frames) frames
        ≡ some (record caller { mm = mm' }, region_of caller.mm addr (length frames)))
      × Maps caller.mm (addr_pgn addr) frames mm'
unfolding vmap_page_range
vmap_page_range-Maps caller addr frames h =
    let (mm', e, maps) =
      vmap_from-Maps (addr_pgn addr) (length frames) h frames 0 caller.mm (omega arith) in
    let start : addr_pgn addr + 0 ≡ addr_pgn addr = omega arith in
    let count : 0 + length frames ≡ length frames = omega arith in
    (mm', rw (e, count), subst (λ (n : ℕ). Maps caller.mm n frames mm') start maps)

pub length-reverse_aux : (xs ys : List ℕ) → length (reverse_aux xs ys) ≡ length xs + length ys
length-reverse_aux [] ys = omega arith
length-reverse_aux (x ∷ xs) ys = omega (arith, length-reverse_aux xs (x ∷ ys))

-- The result of `vm_map_ram` when it maps the pages of `mapstart` on.
abbrev pub mapped_result : Caller → Mm → (mapstart n : ℕ) → Mapped
mapped_result caller mm' mapstart n = record {
  result = 0;
  caller = record caller {
    mm = mm';
    mram = with_free caller.mram (drop n caller.mram.free_fp_list);
  };
  ret_rg = some (region_of caller.mm mapstart n);
}

-- With enough free frames, and the pages inside the page table, `vm_map_ram` succeeds: it takes the
-- first frames of the free list, as many as it was asked for, maps each page to one of them, the
-- last that was taken first, enlists the pages, and changes no other entry. It returns the region
-- that the pages make up.
pub vm_map_ram-Maps :
    (caller : Caller) (astart aend mapstart n : ℕ)
    → n ≤ length caller.mram.free_fp_list
    → addr_pgn mapstart + n ≤ max_pgn
    → (mm' : Mm) × (vm_map_ram caller astart aend mapstart n
        ≡ some (mapped_result caller mm' mapstart n))
      × Maps caller.mm (addr_pgn mapstart) (reverse (take n caller.mram.free_fp_list)) mm'
unfolding vm_map_ram
vm_map_ram-Maps caller astart aend mapstart n enough inside =
    let free = caller.mram.free_fp_list in
    let count : length (reverse (take n free)) ≡ n =
      length-reverse_aux (take n free) [] ∙ omega (arith, length-take n free enough) in
    let after = record caller { mram = with_free caller.mram (drop n free) } in
    let (mm', e, maps) =
      vmap_page_range-Maps after mapstart (reverse (take n free)) (omega (arith, count)) in
    let call : vmap_page_range after mapstart n (reverse (take n free))
        ≡ some (record after { mm = mm' }, region_of caller.mm mapstart n) =
      subst
        (λ (k : ℕ).
          vmap_page_range after mapstart k (reverse (take n free))
          ≡ some (record after { mm = mm' }, region_of caller.mm mapstart k))
        count e in
    (mm', rw (alloc_pages_range-enough caller n (omega arith) enough, call), maps)

-- With fewer free frames than the number of pages, which is a positive `int`, `vm_map_ram` fails,
-- leaves the address space as it was and no frame free: the frames that it took are neither mapped
-- nor given back.
pub vm_map_ram-short :
    (caller : Caller) (astart aend mapstart n : ℕ)
    → n < 2 ^ 31
    → length caller.mram.free_fp_list < n
    → vm_map_ram caller astart aend mapstart n
      ≡ some (record {
        result = minus_one;
        caller = record caller { mram = with_free caller.mram [] };
        ret_rg = none;
      })
unfolding vm_map_ram
vm_map_ram-short caller astart aend mapstart n small short =
    rw (alloc_pages_range-short caller n small short)
