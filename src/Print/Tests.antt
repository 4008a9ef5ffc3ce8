-- ===== src/Print/Tests.antt =====
-- The page table of the process of Libmem/Tests, which has one page, and of one whose area is as large as
-- the table.
use simple_32bit_os.Base.{◌*◌, ◌≡◌, refl, some, List, [], ◌∷◌, arith, minus_one}
use simple_32bit_os.Libmem.Tests
use simple_32bit_os.Libmem.Tests.{heap}
use simple_32bit_os.Memory.{Mm}
use simple_32bit_os.Pte.{max_pgn}
use simple_32bit_os.Print.{
  Title, Piece, title, newline, letter_n, pgn, table, print_pgtbl, print_list_pgn, print_list,
  print_nodes,
}
use simple_32bit_os.Print.Table.{Rows, print_pgtbl-pages}

two_pages :
    (print_list_pgn (4 ∷ 1 ∷ [])).out
    ≡ title Title.list_pgn ∷ newline ∷ pgn 4 ∷ pgn 1 ∷ letter_n ∷ []
unfolding print_list_pgn print_list print_nodes
two_pages = refl

print_pgtbl-pages_example :
    (rows : List Piece) × (print_pgtbl (some Tests.process.mm) 0 minus_one
      ≡ some (record { result = 0; out = table 0 256 ∷ newline ∷ rows }))
    × Rows Tests.process.mm 0 1 rows
print_pgtbl-pages_example = print_pgtbl-pages Tests.process.mm heap 1 refl refl refl (omega arith)

abbrev full : Mm
full = record Tests.process.mm { mmap = record heap { vm_end = max_pgn * 256 } ∷ [] }

full_table :
    (rows : List Piece) × (print_pgtbl (some full) 0 minus_one
      ≡ some (record { result = 0; out = table 0 (max_pgn * 256) ∷ newline ∷ rows }))
    × Rows full 0 0 rows
full_table =
    print_pgtbl-pages full (record heap { vm_end = max_pgn * 256 }) max_pgn refl refl refl
      (omega arith)
