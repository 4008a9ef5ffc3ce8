-- ===== src/Libmem/FreeList.antt =====
-- src/libmem.c: the list of free regions, the search in it, and the symbol table.
pub mod Search
pub mod Bounded
pub mod Fit
use simple_32bit_os.Base.{
  ℕ, zero, suc, ◌+◌, ◌-◌, ◌*◌, ◌^◌, Bool, true, false, Option, none, some, List, [], ◌∷◌, ltb, leb,
  ◌==◌, not, ◌&&◌, ◌||◌, if◌then◌else◌, get_elem?, length, set, ◌>>=◌, u32, u64, sext, sext_byte,
  is_neg, minus_one, minus_one_long, int_le, int_add, int_sub,
}
use simple_32bit_os.Pte.{
  max_pgn, page_alignsz, page_present, pte_fpn, pte_swp, addr_pgn, addr_offst, addr_lobit,
  pte_set_swap, pte_set_fpn,
}
use simple_32bit_os.Memphy.{Memphy, read, write, get_freefp, put_freefp, swap_cp_page}
use simple_32bit_os.Memory.{
  Region, Vma, Mm, Caller, Return, max_symtbl_sz, get_pte, set_pte, set_vma,
}
use simple_32bit_os.Mm.{enlist_pgn_node}
use simple_32bit_os.Vm.{get_vma_by_num, inc_vma_limit}

pub record Enlisted : Type 0 where
  pub result : ℕ
  pub mm : Mm

-- On the first area of the space; `rg_elmt` has no successor yet.
unfoldable pub enlist_on : Mm → List Vma → Region → Option Enlisted
enlist_on mm [] rg_elmt = none
enlist_on mm (vma ∷ rest) rg_elmt =
    if leb rg_elmt.rg_end rg_elmt.rg_start
    then some (record { result = minus_one; mm = mm })
    else some (record {
      result = 0;
      mm = record mm { mmap = record vma { vm_freerg_list = rg_elmt ∷ vma.vm_freerg_list } ∷ rest };
    })

unfoldable pub enlist_vm_freerg_list : Mm → Region → Option Enlisted
unfolding enlist_on
enlist_vm_freerg_list mm rg_elmt = enlist_on mm mm.mmap rg_elmt

-- `rgid < 0 || rgid > PAGING_MAX_SYMTBL_SZ`
unfoldable pub bad_rgid : ℕ → Bool
bad_rgid rgid = is_neg rgid || ltb max_symtbl_sz rgid

-- The place in `symrgtbl` that is pointed at; `none` is NULL. The place may be one behind the table.
unfoldable pub get_symrg_byid : Mm → (rgid : ℕ) → Option ℕ
unfolding bad_rgid
get_symrg_byid mm rgid = if bad_rgid rgid then none else some rgid

-- `symrgtbl[rgid] = rg`
unfoldable pub set_symrg : Mm → (rgid : ℕ) → Region → Option Mm
set_symrg mm rgid rg =
    if ltb rgid (length mm.symrgtbl)
    then some (record mm { symrgtbl = set mm.symrgtbl rgid rg })
    else none

-- What the loop of `get_free_vmrg_area` leaves: `newrg`, and the free list from its start on.
pub record Probe : Type 0 where
  pub newrg : Region
  pub freerg : List Region

behind : Region → Probe → Probe
behind r p = record p { freerg = r ∷ p.freerg }

-- `newrg` as a fit at `r` sets it.
abbrev pub fitted : Region → (size : ℕ) → Region → Region
fitted newrg size r = record newrg { rg_start = r.rg_start; rg_end = u64 (r.rg_start + sext size) }

-- The loop at the node `r`, with the nodes behind it, on fuel. After an exact fit the node takes the
-- bounds of the next one, or becomes empty, and the loop goes on at the same node.
pub probe : ℕ → (vmaid size : ℕ) → List Region → Region → Option Probe
unfolding behind
probe zero vmaid size rgit newrg = none
probe (suc fuel) vmaid size [] newrg = some (record { newrg = newrg; freerg = [] })
probe (suc fuel) vmaid size (r ∷ []) newrg =
    let top = u64 (r.rg_start + sext size) in
    let found : Probe = record {
      newrg = fitted newrg size r;
      freerg = record r { rg_start = top } ∷ [];
    } in
    let same =
      probe fuel vmaid size (record r { rg_start = r.rg_end } ∷ []) (fitted newrg size r) in
    let next = (do p ← probe fuel vmaid size [] newrg; some (behind r p)) in
    if not (r.vmaid == sext vmaid)
    then some (record { newrg = newrg; freerg = r ∷ [] })
    else if leb top r.rg_end
    then (if ltb top r.rg_end then some found else same)
    else next
probe (suc fuel) vmaid size (r ∷ n ∷ rest) newrg =
    let top = u64 (r.rg_start + sext size) in
    let found : Probe = record {
      newrg = fitted newrg size r;
      freerg = record r { rg_start = top } ∷ n ∷ rest;
    } in
    let same =
      probe fuel vmaid size (record r { rg_start = n.rg_start; rg_end = n.rg_end } ∷ rest)
        (fitted newrg size r) in
    let next = (do p ← probe fuel vmaid size (n ∷ rest) newrg; some (behind r p)) in
    if not (r.vmaid == sext vmaid)
    then some (record { newrg = newrg; freerg = r ∷ n ∷ rest })
    else if leb top r.rg_end
    then (if ltb top r.rg_end then some found else same)
    else next

pub record FreeArea : Type 0 where
  pub result : ℕ
  pub newrg : Region
  pub mm : Mm

-- The probe with enough fuel for a size that is not 0, and the lines around the loop.
search_list : Mm → (place : ℕ) → Vma → List Region → (vmaid size : ℕ) → Region → Option FreeArea
unfolding probe set_vma
search_list mm place vma [] vmaid size newrg =
    some (record { result = minus_one; newrg = newrg; mm = mm })
search_list mm place vma (r ∷ rest) vmaid size newrg = do
  let unset = record newrg { rg_start = minus_one_long; rg_end = minus_one_long }
  p ← probe (length (r ∷ rest) + 2) vmaid size (r ∷ rest) unset
  some (record {
    result = if p.newrg.rg_start == minus_one_long then minus_one else 0;
    newrg = p.newrg;
    mm = set_vma mm place (record vma { vm_freerg_list = p.freerg });
  })

unfoldable pub get_free_vmrg_area : Mm → (vmaid size : ℕ) → Region → Option FreeArea
unfolding search_list
get_free_vmrg_area mm vmaid size newrg = do
  found ← get_vma_by_num mm vmaid
  place ← found
  cur_vma ← get_elem? mm.mmap place
  search_list mm place cur_vma cur_vma.vm_freerg_list vmaid size newrg
