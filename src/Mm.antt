-- ===== src/Mm.antt =====
-- src/mm.c: frames for a range of pages, and a new address space. `none` is an access outside the
-- page table.
pub mod Alloc
pub mod Map
pub mod Isolated
use simple_32bit_os.Base.{
  ℕ, zero, suc, Bool, Option, none, some, List, [], ◌∷◌, ◌==◌, not, ◌&&◌, if◌then◌else◌, ◌>>=◌, u32,
  sext, is_neg, minus_one, minus_one_long, int_lt, int_add, int_sub, int_mul,
}
use simple_32bit_os.Pte.{pagesz, addr_pgn, pte_set_fpn}
use simple_32bit_os.Memphy.{Memphy, get_freefp}
use simple_32bit_os.Memory.{Region, Vma, Mm, Caller, get_pte, set_pte}

-- `enlist_pgn_node` and `enlist_vm_rg_node`
unfoldable pub enlist_pgn_node : List ℕ → ℕ → List ℕ
enlist_pgn_node plist pgn = pgn ∷ plist

unfoldable pub enlist_vm_rg_node : List Region → Region → List Region
enlist_vm_rg_node rglist rgnode = rgnode ∷ rglist

-- The loop of `vmap_page_range` from `pgit` on: the pages mapped and the space.
pub vmap_from : List ℕ → (pgit start_pgn pgnum : ℕ) → Mm → Option (ℕ × Mm)
unfolding enlist_pgn_node get_pte set_pte
vmap_from [] pgit start_pgn pgnum mm = some (pgit, mm)
vmap_from (fpn ∷ fpit) pgit start_pgn pgnum mm =
    let current_pgn = int_add start_pgn pgit in
    let step = (do
      pte ← get_pte mm current_pgn
      mm' ← set_pte mm current_pgn (pte_set_fpn pte fpn)
      vmap_from fpit (suc pgit) start_pgn pgnum
          (record mm' { fifo_pgn = enlist_pgn_node mm'.fifo_pgn current_pgn })) in
    if int_lt pgit pgnum then step else some (pgit, mm)

pub first_vm_id : List Vma → ℕ
first_vm_id [] = minus_one_long
first_vm_id (vma ∷ rest) = vma.vm_id

-- The caller and the region that is returned; the `int` result is 0.
pub vmap_page_range : Caller → (addr pgnum : ℕ) → (frames : List ℕ) → Option (Caller × Region)
unfolding vmap_from first_vm_id
vmap_page_range caller addr pgnum frames = do
  (pgit, mm) ← vmap_from frames 0 (addr_pgn addr) pgnum caller.mm
  some (
    record caller { mm = mm },
    record {
      vmaid = first_vm_id caller.mm.mmap;
      rg_start = sext addr;
      rg_end = sext (int_add addr (int_mul pgit pagesz));
    },
  )

-- The result of `alloc_pages_range`, the device, and the list of frames.
pub record Pages : Type 0 where
  pub result : ℕ
  pub mram : Memphy
  pub frm_lst : List ℕ

-- The loop of `alloc_pages_range` with the given number of rounds left. `MEMPHY_get_freefp` returns 0
-- exactly when it stores a frame.
pub alloc_from : ℕ → Memphy → List ℕ → Pages
unfolding get_freefp
alloc_from zero mram frm_lst = record { result = 0; mram = mram; frm_lst = frm_lst }
alloc_from (suc n) mram frm_lst = elim ((get_freefp mram).fpn) [
  | none ↦ record { result = minus_one; mram = (get_freefp mram).memphy; frm_lst = frm_lst }
  | some fpn ↦ alloc_from n (get_freefp mram).memphy (fpn ∷ frm_lst)
]

pub alloc_pages_range : Caller → (req_pgnum : ℕ) → Pages
unfolding alloc_from
alloc_pages_range caller req_pgnum =
    alloc_from (if is_neg req_pgnum then 0 else req_pgnum) caller.mram []

-- The result of `vm_map_ram`, the caller, and what it stores through `ret_rg`, if it does.
pub record Mapped : Type 0 where
  pub result : ℕ
  pub caller : Caller
  pub ret_rg : Option Region

abbrev pub out_of_memory : ℕ
out_of_memory = int_sub 0 3000

-- `astart` and `aend` are not used.
unfoldable pub vm_map_ram : Caller → (astart aend mapstart incpgnum : ℕ) → Option Mapped
unfolding alloc_pages_range vmap_page_range
vm_map_ram caller astart aend mapstart incpgnum =
    let pages = alloc_pages_range caller incpgnum in
    let after = record caller { mram = pages.mram } in
    if int_lt pages.result 0 && not (pages.result == out_of_memory)
    then some (record { result = minus_one; caller = after; ret_rg = none })
    else if pages.result == out_of_memory
    then some (record { result = minus_one; caller = after; ret_rg = none })
    else (do
      (mapped, rg) ← vmap_page_range after mapstart incpgnum pages.frm_lst
      some (record { result = 0; caller = mapped; ret_rg = some rg }))

-- `init_vm_rg`; `junk` is the `vmaid` that it does not set.
unfoldable pub init_vm_rg : (rg_start rg_end junk : ℕ) → Region
init_vm_rg rg_start rg_end junk = record {
  vmaid = junk;
  rg_start = sext rg_start;
  rg_end = sext rg_end;
}

-- `mm` is the structure before, `pgd` the new table, `junk` the `vmaid` of the first region and
-- `junk_list` the list that the new area starts from: the contents of memory from `malloc`.
unfoldable pub init_mm : Mm → (pgd : ℕ → ℕ) → (junk : ℕ) → (junk_list : List Region) → Mm
unfolding init_vm_rg enlist_vm_rg_node
init_mm mm pgd junk junk_list =
    let vma0 : Vma = record {
      vm_id = 0;
      vm_start = 0;
      vm_end = 0;
      sbrk = 0;
      vm_freerg_list = enlist_vm_rg_node junk_list (init_vm_rg 0 0 junk);
    } in
    record mm { pgd = pgd; mmap = vma0 ∷ [] }
