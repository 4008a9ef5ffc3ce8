-- ===== src/Libmem/Private.antt =====
-- A byte of a symbol is private: `libwrite` of another symbol, of the process or of another one, leaves
-- it as it is.
mod Tests
use simple_32bit_os.Base.{
  ℕ, zero, suc, ◌+◌, ◌*◌, ◌%◌, ◌<◌, ◌≤◌, ◌^◌, ◌≡◌, ◌≢◌, ◌⊎◌, inl, inr, refl, sym, ap, subst, ◌∙◌,
  some, List, [], ◌∷◌, arith, true, false, ◌==◌, ==_iff, if◌then◌else◌, Bool-cases, get_elem?, sext,
  sext_byte,
}
use simple_32bit_os.Pte.{pagesz, max_pgn, addr_pgn}
use simple_32bit_os.Pte.Arithmetic.{addr_pgn_lem}
use simple_32bit_os.Memphy.Device.{updated}
use simple_32bit_os.Memory.{Region, Vma, Mm, Caller, Return}
use simple_32bit_os.Queue.{Ptr}
use simple_32bit_os.Mm.Isolated.{IsIsolated, with_space}
use simple_32bit_os.Mm.Isolated.Requests.{Spaces, caller_of, after_call, Isolated}
use simple_32bit_os.Libmem.FreeList.Search.{covers, cover}
use simple_32bit_os.Libmem.Alloc.Disjoint.{IsHeap, covers-le-cover}
use simple_32bit_os.Libmem.Alloc.Disjoint.Release.{region_below}
use simple_32bit_os.Libmem.Alloc.Disjoint.Ops.{Heaps}
use simple_32bit_os.Libmem.Paging.{Destination, region_addr, libread, libwrite}
use simple_32bit_os.Libmem.Paging.Present.{place_of, frame_of}
use simple_32bit_os.Libmem.Paging.Regions.{
  IsSymbol, symbol_place, symbol_written, libwrite-symbol, libread-symbol, updated-IsSymbol,
}

-- Two regions of a table count twice.
covers-two :
    (rs : List Region) (i j : ℕ) (a b : Region) (x : ℕ)
    → i ≢ j
    → get_elem? rs i ≡ some a
    → get_elem? rs j ≡ some b
    → covers a x + covers b x ≤ cover rs x
covers-two [] i j a b x ne e f = cc
covers-two (r ∷ rs) zero zero a b x ne e f = absurd (ne refl)
covers-two (r ∷ rs) zero (suc j) a b x ne e f =
    let same : r ≡ a = cc in rw (← same) (omega (arith, covers-le-cover rs j b x f))
covers-two (r ∷ rs) (suc i) zero a b x ne e f =
    let same : r ≡ b = cc in rw (← same) (omega (arith, covers-le-cover rs i a x e))
covers-two (r ∷ rs) (suc i) (suc j) a b x ne e f =
    omega (arith, covers-two rs i j a b x (λ s. ne (ap suc s)) e f)

-- An offset inside a region of a heap whose break is in the page table: the sum does not wrap.
inside_region :
    {caller : Caller} {vma : Vma} (rgid : ℕ) (rg : Region) (offset : ℕ)
    → IsHeap caller vma
    → vma.sbrk ≤ max_pgn * pagesz
    → get_elem? caller.mm.symrgtbl rgid ≡ some rg
    → offset < 2 ^ 31
    → rg.rg_start + offset < rg.rg_end
    → (region_addr rg offset ≡ rg.rg_start + offset)
      × (rg.rg_start + offset < 2 ^ 22)
      × (covers rg (region_addr rg offset) ≡ 1)
inside_region rgid rg offset h top at small inside =
    let low = region_below rgid rg h at (omega arith) in
    let z : sext offset ≡ offset = ground arith in
    let e : region_addr rg offset ≡ rg.rg_start + offset = omega (arith, z, low) in
    (e, omega (arith, low), rw e (ground arith))

-- One frame and one place in it is one address, for addresses in the page table.
same_address :
    (x y : ℕ) → x < 2 ^ 22 → y < 2 ^ 22 → addr_pgn x ≡ addr_pgn y → x % pagesz ≡ y % pagesz → x ≡ y
same_address x y lt lt' page byte =
    omega (arith, addr_pgn_lem x (omega arith), addr_pgn_lem y (omega arith))

with_space-same : (mm : Ptr → Mm) (p q : Ptr) → with_space mm p (mm p) q ≡ mm q
with_space-same mm p q = elim (Bool-cases (q == p)) [
  | inl self ↦ rw self (subst (λ x. mm p ≡ mm x) (sym ((==_iff q p).0 self)) refl)
  | inr other ↦ rw other refl
]

module _ (s : Spaces) (vma : Ptr → Vma) (heaps : Heaps s vma) (isolated : Isolated s) (p q : Ptr)
    (rgid rgid' offset offset' : ℕ) (top : (r : Ptr) → (vma r).sbrk ≤ max_pgn * pagesz)
    (is : IsSymbol (caller_of s p) rgid offset) (is' : IsSymbol (caller_of s q) rgid' offset')
    (small : offset < 2 ^ 31) (small' : offset' < 2 ^ 31)
    (inside : is.region.rg_start + offset < is.region.rg_end)
    (inside' : is'.region.rg_start + offset' < is'.region.rg_end)
    (different : (p ≢ q) ⊎ (rgid ≢ rgid')) where
  abbrev x : ℕ
  x = region_addr is.region offset

  abbrev y : ℕ
  y = region_addr is'.region offset'

  -- In one process, the two addresses are in two symbols.
  two_symbols : p ≡ q → rgid ≢ rgid' → x ≢ y
  two_symbols same other e =
      let (_, _, a) =
        inside_region rgid is.region offset (heaps p) (top p) is.symbol small inside in
      let (_, _, b) =
        inside_region rgid' is'.region offset' (heaps q) (top q) is'.symbol small' inside' in
      let b' : covers is'.region x ≡ 1 = rw e b in
      let at : get_elem? (s.mm p).symrgtbl rgid' ≡ some is'.region =
        subst (λ r. get_elem? (s.mm r).symrgtbl rgid' ≡ some is'.region) (sym same) is'.symbol in
      omega (
        arith,
        (heaps p).once x,
        covers-two (s.mm p).symrgtbl rgid rgid' is.region is'.region x other is.symbol at,
        a,
        b',
      )

  two_places :
      symbol_place (caller_of s p) is.region offset
      ≢ symbol_place (caller_of s q) is'.region offset'
  two_places e =
      let (ex, low, _) =
        inside_region rgid is.region offset (heaps p) (top p) is.symbol small inside in
      let (ey, low', _) =
        inside_region rgid' is'.region offset' (heaps q) (top q) is'.symbol small' inside' in
      let page : addr_pgn x < max_pgn = omega (arith, addr_pgn_lem x is.mapped.word) in
      let page' : addr_pgn y < max_pgn = omega (arith, addr_pgn_lem y is'.mapped.word) in
      let (same, page_same) =
        isolated.apart p q (addr_pgn x) (addr_pgn y) (page, is.mapped.present)
          (page', is'.mapped.present) (omega (arith, e)) in
      let address : x ≡ y =
        same_address x y (omega (arith, ex, low)) (omega (arith, ey, low')) page_same
          (omega (arith, e)) in
      elim different [ inl ne ↦ ne same | inr ne ↦ two_symbols same ne address ]

  -- The regions of each heap are apart, with the breaks inside the page table, and no frame of RAM is
  -- shared by two pages or is both used and free. A byte of a symbol of process `p` and one of a symbol
  -- of process `q` are at offsets inside the two regions, below 2 ^ 31, in pages that are present, in
  -- frames inside RAM, which has random access; the processes or the symbols are different. Then
  -- `libwrite` of the first byte succeeds, and `libread` of the second succeeds before and after it, and
  -- gives the same.
  pub libread-libwrite_other :
      (byte : ℕ)
      → (after : Caller) × (libwrite (caller_of s p) byte rgid offset
          ≡ some (record { result = 0; caller = after }))
        × (d : ℕ) × (libread (caller_of s q) rgid' offset'
            ≡ some (record { result = 0; destination = some d; proc = caller_of s q }))
        × (libread (caller_of (after_call s p after) q) rgid' offset'
            ≡ some (record {
              result = 0;
              destination = some d;
              proc = caller_of (after_call s p after) q;
            }))
  libread-libwrite_other byte =
      let after = symbol_written (caller_of s p) is.region offset byte in
      let written = record (caller_of s q) { mram = after.mram } in
      let (is_after, region) =
        updated-IsSymbol (caller_of s q) byte (symbol_place (caller_of s p) is.region offset) is' in
      let place = symbol_place (caller_of s q) is'.region offset' in
      let old : (place == symbol_place (caller_of s p) is.region offset) ≡ false =
        ground (arith, two_places) in
      let same : caller_of (after_call s p after) q ≡ written =
        ap (λ m. record written { mm = m }) (with_space-same s.mm p q) in
      (
        after,
        libwrite-symbol (caller_of s p) byte rgid offset is,
        sext_byte (s.mram.storage place),
        libread-symbol (caller_of s q) rgid' offset' is',
        rw same (libread-symbol written rgid' offset' is_after ∙ rw (region, old) refl),
      )
