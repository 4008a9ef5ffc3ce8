-- ===== src/Vm.antt =====
-- src/mm-vm.c: the areas of an address space. `none` is a dereference of NULL, or a fault of what is
-- called. A pointer to an area is its place in `mmap`.
pub mod Areas
pub mod Limit
pub mod Grown
use simple_32bit_os.Base.{
  ℕ, zero, suc, ◌+◌, Bool, true, false, Option, none, some, List, [], ◌∷◌, leb, ◌==◌, not, ◌&&◌,
  ◌||◌, if◌then◌else◌, get_elem?, ◌>>=◌, u32, u64, sext, minus_one, int_lt, int_add, int_div,
}
use simple_32bit_os.Pte.{pagesz, page_alignsz}
use simple_32bit_os.Memphy.{Memphy, swap_cp_page}
use simple_32bit_os.Memory.{Vma, Mm, Caller, Return, set_vma}
use simple_32bit_os.Mm.{vm_map_ram, Mapped}

-- The loop of `get_vma_by_num`. It reads `vm_id` of the next area before it tests that for NULL.
pub walk : List Vma → (place vmaid : ℕ) → Option ℕ
walk [] place vmaid = none
walk (vma ∷ rest) place vmaid =
    if int_lt (u32 vma.vm_id) vmaid then walk rest (suc place) vmaid else some place

search_areas : List Vma → (vmaid : ℕ) → Option (Option ℕ)
unfolding walk
search_areas [] vmaid = some none
search_areas (vma ∷ rest) vmaid = do place ← walk (vma ∷ rest) 0 vmaid; some (some place)

-- `some none` is the NULL that it returns.
pub get_vma_by_num : Mm → (vmaid : ℕ) → Option (Option ℕ)
unfolding search_areas
get_vma_by_num mm vmaid = search_areas mm.mmap vmaid

-- The caller with one of its devices copied onto the other.
pub mm_swap_page : Caller → (vicfpn swpfpn : ℕ) → Option Return
mm_swap_page caller vicfpn swpfpn = do
  (mram, mswp) ← swap_cp_page caller.mram vicfpn caller.active_mswp swpfpn
  some (record { result = 0; caller = record caller { mram = mram; active_mswp = mswp } })

-- The new region of `get_vm_area_node_at_brk`; its `vmaid` is not set and nobody reads it.
pub record Area : Type 0 where
  pub rg_start : ℕ
  pub rg_end : ℕ

-- The body behind the guards: the area at `place` with its break moved up.
pub area_at_brk : Caller → (place alignedsz : ℕ) → Option (Option Area × Caller)
unfolding set_vma
area_at_brk caller place alignedsz = do
  cur_vma ← get_elem? caller.mm.mmap place
  let top = u64 (cur_vma.sbrk + sext alignedsz)
  some (
    some (record { rg_start = cur_vma.sbrk; rg_end = top }),
    record caller { mm = set_vma caller.mm place (record cur_vma { sbrk = top }) },
  )

-- `some (none, _)` is the NULL that it returns. `size` is not used.
pub get_vm_area_node_at_brk : Caller → (vmaid size alignedsz : ℕ) → Option (Option Area × Caller)
unfolding get_vma_by_num area_at_brk
get_vm_area_node_at_brk caller vmaid size alignedsz = do
  cur_vma ← get_vma_by_num caller.mm vmaid
  elim cur_vma [ none ↦ some (none, caller) | some place ↦ area_at_brk caller place alignedsz ]

-- The condition in the loop of `validate_overlap_vm_area`.
pub overlaps : Vma → (vmastart vmaend : ℕ) → Bool
overlaps vma vmastart vmaend =
    (leb vma.vm_start (sext vmastart) && leb (sext vmastart) vma.vm_end)
    || (leb vma.vm_start (sext vmaend) && leb (sext vmaend) vma.vm_end)
    || (leb (sext vmastart) vma.vm_start && leb vma.vm_end (sext vmaend))
    || (leb vma.vm_start (sext vmastart) && leb (sext vmaend) vma.vm_end)

pub validate_from : List Vma → (vmastart vmaend : ℕ) → ℕ
unfolding overlaps
validate_from [] vmastart vmaend = 0
validate_from (vma ∷ rest) vmastart vmaend =
    let next = validate_from rest vmastart vmaend in
    if vma.vm_start == vma.vm_end
    then next
    else if overlaps vma vmastart vmaend
    then minus_one
    else next

-- `vmaid` is not used.
pub validate_overlap_vm_area : Caller → (vmaid vmastart vmaend : ℕ) → ℕ
unfolding validate_from
validate_overlap_vm_area caller vmaid vmastart vmaend = validate_from caller.mm.mmap vmastart vmaend

-- The last part of `inc_vma_limit`, when the area is there.
pub grow :
    Caller → (vmaid place : ℕ) → Vma → Area → (old_end inc_amt incnumpage : ℕ) → Option Return
unfolding validate_overlap_vm_area vm_map_ram set_vma
grow caller vmaid place cur_vma area old_end inc_amt incnumpage =
    if int_lt (validate_overlap_vm_area caller vmaid (u32 area.rg_start) (u32 area.rg_end)) 0
    then some (record { result = minus_one; caller = caller })
    else (let grown =
          set_vma caller.mm place (record cur_vma { vm_end = sext (int_add old_end inc_amt) }) in
        do
          m ←
              vm_map_ram (record caller { mm = grown }) (u32 area.rg_start) (u32 area.rg_end)
                old_end incnumpage
          some (record { result = if int_lt m.result 0 then minus_one else 0; caller = m.caller }))

pub inc_vma_limit : Caller → (vmaid inc_sz : ℕ) → Option Return
unfolding get_vm_area_node_at_brk get_vma_by_num grow
inc_vma_limit caller vmaid inc_sz = do
  let inc_amt = page_alignsz inc_sz
  let incnumpage = int_div inc_amt pagesz
  (area, caller') ← get_vm_area_node_at_brk caller vmaid inc_sz inc_amt
  found ← get_vma_by_num caller'.mm vmaid
  place ← found
  cur_vma ← get_elem? caller'.mm.mmap place
  let old_end = u32 cur_vma.vm_end
  elim area [
    | none ↦ some (record { result = minus_one; caller = caller' })
    | some a ↦ grow caller' vmaid place cur_vma a old_end inc_amt incnumpage
  ]
