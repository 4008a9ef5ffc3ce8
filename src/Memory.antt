-- ===== src/Memory.antt =====
-- The structures of include/os-mm.h: the address space of a process, and the two devices that its
-- control block points at.
use simple_32bit_os.Base.{ℕ, Option, List, some, none, ltb, ◌==◌, if◌then◌else◌, set}
use simple_32bit_os.Memphy.{Memphy}
use simple_32bit_os.Pte.{max_pgn}

-- `struct vm_rg_struct`; the fields are `unsigned long`. The list `rg_next` is a list of regions.
pub record Region : Type 0 where
  pub vmaid : ℕ
  pub rg_start : ℕ
  pub rg_end : ℕ

-- `struct vm_area_struct`; `vm_mm` is the space that holds it, `vm_next` the next of `mmap`.
pub record Vma : Type 0 where
  pub vm_id : ℕ
  pub vm_start : ℕ
  pub vm_end : ℕ
  pub sbrk : ℕ
  pub vm_freerg_list : List Region

-- `struct mm_struct`. `pgd` has `max_pgn` entries.
pub record Mm : Type 0 where
  pub pgd : ℕ → ℕ
  pub mmap : List Vma
  pub symrgtbl : List Region
  pub fifo_pgn : List ℕ

abbrev pub max_symtbl_sz : ℕ
max_symtbl_sz = 30

-- The fields `mm`, `mram` and `active_mswp` of a `struct pcb_t`. The devices are shared: a call
-- leaves them as its result says.
pub record Caller : Type 0 where
  pub mm : Mm
  pub mram : Memphy
  pub active_mswp : Memphy

-- `mm->pgd[pgn]`, and its assignment; `none` is an access outside the table.
unfoldable pub get_pte : Mm → ℕ → Option ℕ
get_pte mm pgn = if ltb pgn max_pgn then some (mm.pgd pgn) else none

unfoldable pub set_pte : Mm → ℕ → ℕ → Option Mm
set_pte mm pgn pte =
    if ltb pgn max_pgn
    then some (record mm { pgd = λ p. if p == pgn then pte else mm.pgd p })
    else none

-- `*vma = v` for the area at a place of `mmap`.
unfoldable pub set_vma : Mm → ℕ → Vma → Mm
set_vma mm i v = record mm { mmap = set mm.mmap i v }

-- An `int` return value and the caller afterwards.
pub record Return : Type 0 where
  pub result : ℕ
  pub caller : Caller
