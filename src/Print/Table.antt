-- ===== src/Print/Table.antt =====
-- What `print_pgtbl` shows of a page table.
use simple_32bit_os.Base.{
  ℕ, zero, suc, ◌+◌, ◌-◌, ◌*◌, ◌<◌, ◌≤◌, ◌^◌, ◌≡◌, refl, ap, ◌∙◌, some, List, [], ◌∷◌, arith, ltb,
  get_elem?, length, u32, minus_one, ◌==◌, if◌then◌else◌, true,
}
use simple_32bit_os.Memory.{Vma, Mm, get_pte}
use simple_32bit_os.Pte.{pagesz, max_pgn, addr_pgn}
use simple_32bit_os.Pte.Arithmetic.{addr_pgn_lem}
use simple_32bit_os.Vm.Areas.{get_vma_by_num-one}
use simple_32bit_os.Print.{
  Piece, newline, table, entry, print_rows, print_pages, area_end, print_pgtbl,
}

-- One line for each of `n` pages from `p` on, in order, with its place in the table and its entry.
pub record Rows (mm : Mm) (p n : ℕ) (rows : List Piece) : Type 0 where
  pub count : length rows ≡ n
  pub lines : (i : ℕ) → i < n → get_elem? rows i ≡ some (entry ((p + i) * 4) (mm.pgd (p + i)))

print_rows-Rows :
    (mm : Mm) (n p : ℕ)
    → p + n ≤ max_pgn
    → (rows : List Piece) × (print_rows mm n p ≡ some rows) × Rows mm p n rows
unfolding print_rows get_pte
print_rows-Rows mm zero p h =
    ([], refl, record { count = refl; lines = λ i lt. absurd (omega arith) })
print_rows-Rows mm (suc n) p h =
    let inside : ltb p max_pgn ≡ true = ground arith in
    let (rows, e, r) = print_rows-Rows mm n (suc p) (omega arith) in
    (
      entry (p * 4) (mm.pgd p) ∷ rows,
      rw (inside, e) refl,
      record { count = ap suc r.count; lines = at r },
    )
  where
    at :
        {rows : List Piece}
        → Rows mm (suc p) n rows
        → (i : ℕ) → i < suc n
        → get_elem? (entry (p * 4) (mm.pgd p) ∷ rows) i
          ≡ some (entry ((p + i) * 4) (mm.pgd (p + i)))
    at r zero lt = let same : p + 0 ≡ p = omega arith in rw same refl
    at r (suc i) lt =
        let shift : p + suc i ≡ suc p + i = omega arith in rw shift (r.lines i (omega arith))

area_end-one :
    (mm : Mm) (vma : Vma)
    → mm.mmap ≡ vma ∷ []
    → vma.vm_id ≡ 0
    → vma.vm_end < 2 ^ 32
    → area_end (some mm) ≡ some vma.vm_end
unfolding area_end
area_end-one mm vma one id small =
    let found : get_elem? mm.mmap 0 ≡ some vma = ap (λ areas. get_elem? areas 0) one in
    let whole : u32 vma.vm_end ≡ vma.vm_end = omega arith in
    rw (get_vma_by_num-one mm vma 0 one id, found) (ap some whole)

-- For a space with one area, number 0, that ends at page `pages`, a call for the whole table, from 0 to
-- -1, succeeds. It prints the bounds, and then each page of the area, in order, with its entry; but for
-- an area of 2 ^ 14 pages, which is as large as the table, it prints no page.
pub print_pgtbl-pages :
    (mm : Mm) (vma : Vma) (pages : ℕ)
    → mm.mmap ≡ vma ∷ []
    → vma.vm_id ≡ 0
    → vma.vm_end ≡ pages * pagesz
    → pages ≤ max_pgn
    → (rows : List Piece) × (print_pgtbl (some mm) 0 minus_one
        ≡ some (record { result = 0; out = table 0 vma.vm_end ∷ newline ∷ rows }))
      × Rows mm 0 (if pages == max_pgn then 0 else pages) rows
unfolding print_pgtbl print_pages
print_pgtbl-pages mm vma pages one id end_ most =
    let small : vma.vm_end < 2 ^ 32 = omega arith in
    let shown = if pages == max_pgn then 0 else pages in
    let first : addr_pgn 0 ≡ 0 = addr_pgn_lem 0 (omega arith) ∙ omega arith in
    let last : addr_pgn vma.vm_end ≡ shown = addr_pgn_lem vma.vm_end small ∙ ground arith in
    let all : addr_pgn vma.vm_end - addr_pgn 0 ≡ shown = omega (arith, first, last) in
    let (rows, e, r) = print_rows-Rows mm shown 0 (ground arith) in
    (rows, rw (area_end-one mm vma one id small, all, first, e) refl, r)
