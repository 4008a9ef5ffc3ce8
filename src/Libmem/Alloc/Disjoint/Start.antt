-- ===== src/Libmem/Alloc/Disjoint/Start.antt =====
-- The heap that `init_mm` makes.
use simple_32bit_os.Base.{ℕ, ◌≡◌, refl, arith, [], ◌∷◌, length, zero, suc, replicate}
use simple_32bit_os.Memory.{Region, Vma, Mm, Caller, max_symtbl_sz}
use simple_32bit_os.Mm.{init_mm, init_vm_rg, enlist_vm_rg_node}
use simple_32bit_os.Libmem.FreeList.Search.{covers, cover}
use simple_32bit_os.Libmem.Alloc.Disjoint.{IsHeap}

abbrev pub first_area : (vmaid : ℕ) → Vma
first_area vmaid = record {
  vm_id = 0;
  vm_start = 0;
  vm_end = 0;
  sbrk = 0;
  vm_freerg_list = record { vmaid = vmaid; rg_start = 0; rg_end = 0 } ∷ [];
}

pub cover-replicate : (n : ℕ) (r : Region) (x : ℕ) → covers r x ≡ 0 → cover (replicate n r) x ≡ 0
cover-replicate zero r x e = refl
cover-replicate (suc n) r x e = omega (arith, e, cover-replicate n r x e)

-- The regions are apart if the memory from `malloc` happens to have a symbol table of empty regions and
-- NULL for the free list: `init_mm` sets neither.
pub init_mm-IsHeap :
    (caller : Caller) (mm : Mm) (pgd : ℕ → ℕ) (vmaid : ℕ)
    → length mm.symrgtbl ≡ max_symtbl_sz
    → ((x : ℕ) → cover mm.symrgtbl x ≡ 0)
    → IsHeap (record caller { mm = init_mm mm pgd vmaid [] }) (first_area vmaid)
unfolding init_mm init_vm_rg enlist_vm_rg_node
init_mm-IsHeap caller mm pgd vmaid table empty = record {
  one = refl;
  number = refl;
  ordered = omega arith;
  table = table;
  once = λ x. ground (arith, empty x);
  below = λ x le. ground (arith, empty x);
  bounded = omega arith;
  small = omega arith;
}
