-- ===== src/Libmem/Alloc/Disjoint.antt =====
-- The heap of a process as a whole: no byte is in two symbols, or in a symbol and a free region.
pub mod Break
pub mod Place
pub mod Release
pub mod Ops
pub mod Start
mod Tests
use simple_32bit_os.Base.{
  ℕ, zero, suc, ◌+◌, ◌<◌, ◌≤◌, ◌^◌, ◌≡◌, some, List, [], ◌∷◌, arith, get_elem?, length, set, All,
}
use simple_32bit_os.Memory.{Region, Vma, Caller, max_symtbl_sz}
use simple_32bit_os.Libmem.FreeList.Search.{covers, cover}
use simple_32bit_os.Libmem.FreeList.Bounded.{Bounded}
use simple_32bit_os.Libmem.Alloc.Heap.{at_break}

-- The space has one area, number 0, and no byte is in two of its regions, free or of a symbol, nor in
-- one of them from the break on.
pub record IsHeap (caller : Caller) (vma : Vma) : Type 0 where
  pub one : caller.mm.mmap ≡ vma ∷ []
  pub number : vma.vm_id ≡ 0
  pub ordered : vma.vm_start ≤ vma.vm_end
  pub table : length caller.mm.symrgtbl ≡ max_symtbl_sz
  pub once : (x : ℕ) → cover vma.vm_freerg_list x + cover caller.mm.symrgtbl x ≤ 1
  pub below : (x : ℕ) → vma.sbrk ≤ x → cover vma.vm_freerg_list x + cover caller.mm.symrgtbl x ≡ 0
  pub bounded : All Bounded vma.vm_freerg_list
  pub small : vma.sbrk < 2 ^ 63

pub cover-set :
    (rs : List Region) (i : ℕ) (old new : Region) (x : ℕ)
    → get_elem? rs i ≡ some old
    → cover (set rs i new) x + covers old x ≡ cover rs x + covers new x
cover-set [] i old new x e = cc
cover-set (r ∷ rs) zero old new x e = let same : r ≡ old = cc in rw same (omega arith)
cover-set (r ∷ rs) (suc i) old new x e = omega (arith, cover-set rs i old new x e)

pub covers-le-cover :
    (rs : List Region) (i : ℕ) (r : Region) (x : ℕ)
    → get_elem? rs i ≡ some r
    → covers r x ≤ cover rs x
covers-le-cover [] i r x e = cc
covers-le-cover (y ∷ rs) zero r x e = let same : y ≡ r = cc in rw same (omega arith)
covers-le-cover (y ∷ rs) (suc i) r x e = omega (arith, covers-le-cover rs i r x e)

pub cover-set_le :
    (rs : List Region) (i : ℕ) (new : Region) (x : ℕ)
    → cover (set rs i new) x ≤ cover rs x + covers new x
cover-set_le [] i new x = omega arith
cover-set_le (r ∷ rs) zero new x = omega arith
cover-set_le (r ∷ rs) (suc i) new x = omega (arith, cover-set_le rs i new x)

pub covers-at_break :
    (vma : Vma) (size x : ℕ)
    → (covers (at_break vma size) x ≤ 1)
      × (x < vma.sbrk → covers (at_break vma size) x ≡ 0)
      × (vma.sbrk + size ≤ x → covers (at_break vma size) x ≡ 0)
covers-at_break vma size x = (ground arith, λ lt. ground arith, λ le. ground arith)
