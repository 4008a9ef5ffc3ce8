-- ===== src/Print.antt =====
-- The functions at the end of src/mm.c that print a list or the page table: each call of `printf` is a
-- piece of the output.
pub mod Table
mod Tests
use simple_32bit_os.Base.{
  ℕ, zero, suc, ◌-◌, ◌*◌, Option, none, some, List, [], ◌∷◌, ◌==◌, if◌then◌else◌, get_elem?, ◌>>=◌,
  u32, minus_one,
}
use simple_32bit_os.Memory.{Region, Vma, Mm, get_pte}
use simple_32bit_os.Pte.{addr_pgn}
use simple_32bit_os.Vm.{get_vma_by_num}

-- The function that a line starts with.
pub data Title : Type 0 where
  list_fp list_rg list_vma list_pgn : Title

-- `letter_n` is "n", and `table` the line of `print_pgtbl` with its bounds.
pub data Piece : Type 0 where
  title : Title → Piece
  null_list newline letter_n null_caller : Piece
  fp : (fpn : ℕ) → Piece
  rg : (rg_start rg_end : ℕ) → Piece
  va : (vm_start vm_end : ℕ) → Piece
  pgn : ℕ → Piece
  table : (start end_ : ℕ) → Piece
  entry : (offset pte : ℕ) → Piece

pub record Printed : Type 0 where
  pub result : ℕ
  pub out : List Piece

-- The loop over a list, with what is printed behind it.
pub print_nodes {ℓ} : {A : Type ℓ} → (A → Piece) → (last : Piece) → List A → List Piece
print_nodes line last [] = last ∷ []
print_nodes line last (x ∷ xs) = line x ∷ print_nodes line last xs

-- The common body: the title, and the test for NULL.
pub print_list {ℓ} : {A : Type ℓ} → Title → (A → Piece) → (last : Piece) → List A → Printed
unfolding print_nodes
print_list t line last [] = record { result = minus_one; out = title t ∷ null_list ∷ [] }
print_list t line last (x ∷ xs) = record {
  result = 0;
  out = title t ∷ newline ∷ print_nodes line last (x ∷ xs);
}

pub print_list_fp : List ℕ → Printed
unfolding print_list
print_list_fp ifp = print_list Title.list_fp Piece.fp newline ifp

pub print_list_rg : List Region → Printed
unfolding print_list
print_list_rg irg = print_list Title.list_rg (λ r. Piece.rg r.rg_start r.rg_end) newline irg

pub print_list_vma : List Vma → Printed
unfolding print_list
print_list_vma ivma = print_list Title.list_vma (λ v. Piece.va v.vm_start v.vm_end) newline ivma

pub print_list_pgn : List ℕ → Printed
unfolding print_list
print_list_pgn ip = print_list Title.list_pgn Piece.pgn letter_n ip

-- The loop over the pages, with the given number of rounds left.
pub print_rows : Mm → ℕ → (pgit : ℕ) → Option (List Piece)
print_rows mm zero pgit = some []
print_rows mm (suc n) pgit = do
  pte ← get_pte mm pgit
  rest ← print_rows mm n (suc pgit)
  some (entry (pgit * 4) pte ∷ rest)

-- What follows when `end` is known: the test for NULL, and the loop.
pub print_pages : Option Mm → (start end_ : ℕ) → Option Printed
unfolding print_rows
print_pages none start end_ =
    some (record { result = minus_one; out = table start end_ ∷ null_caller ∷ [] })
print_pages (some mm) start end_ = do
  rows ← print_rows mm (addr_pgn end_ - addr_pgn start) (addr_pgn start)
  some (record { result = 0; out = table start end_ ∷ newline ∷ rows })

-- The `vm_end` of the first area, as `uint32_t`. `none` is a NULL dereference, of the caller too.
pub area_end : Option Mm → Option ℕ
area_end none = none
area_end (some mm) = do
  cur_vma ← get_vma_by_num mm 0
  place ← cur_vma
  vma ← get_elem? mm.mmap place
  some (u32 vma.vm_end)

-- The caller is given by its `mm`.
pub print_pgtbl : Option Mm → (start end_ : ℕ) → Option Printed
unfolding area_end print_pages
print_pgtbl caller start end_ = do
  last ← if end_ == minus_one then area_end caller else some end_
  print_pages caller start last
