-- ===== src/Libmem/Paging.antt =====
-- src/libmem.c: pages brought into memory, and bytes read and written through the page table.
pub mod Victim
pub mod Present
pub mod Regions
pub mod Swap
pub mod Tests
use simple_32bit_os.Base.{
  ℕ, zero, suc, ◌+◌, ◌-◌, ◌*◌, ◌^◌, Bool, true, false, Option, none, some, List, [], ◌∷◌, ltb, leb,
  ◌==◌, not, ◌&&◌, ◌||◌, if◌then◌else◌, get_elem?, length, set, ◌>>=◌, u32, u64, sext, sext_byte,
  is_neg, minus_one, minus_one_long, int_le, int_add, int_sub,
}
use simple_32bit_os.Pte.{
  max_pgn, page_alignsz, page_present, pte_fpn, pte_swp, addr_pgn, addr_offst, addr_lobit,
  pte_set_swap, pte_set_fpn,
}
use simple_32bit_os.Memphy.{Memphy, read, write, get_freefp, put_freefp, swap_cp_page}
use simple_32bit_os.Memory.{
  Region, Vma, Mm, Caller, Return, max_symtbl_sz, get_pte, set_pte, set_vma,
}
use simple_32bit_os.Mm.{enlist_pgn_node}
use simple_32bit_os.Vm.{get_vma_by_num, inc_vma_limit}
use simple_32bit_os.Libmem.FreeList.{get_symrg_byid}

-- The last node of a list that is not empty, and the nodes before it.
pub unlink_last : ℕ → List ℕ → ℕ × List ℕ
unlink_last pg [] = (pg, [])
unlink_last pg (next ∷ rest) = let (last, front) = unlink_last next rest in (last, pg ∷ front)

-- `find_victim_page` on the list: `none` is its -1, and otherwise the page and the list left.
pub find_victim_page : List ℕ → Option (ℕ × List ℕ)
unfolding unlink_last
find_victim_page [] = none
find_victim_page (pg ∷ rest) = some (unlink_last pg rest)

-- The `int` result of `pg_getpage`, the frame that it stores through `fpn`, if it does, the caller.
pub record Page : Type 0 where
  pub result : ℕ
  pub fpn : Option ℕ
  pub caller : Caller

-- The body for a page that is not present, when the victim is chosen: `mm` has its list without it.
pub swap_in : Caller → Mm → (pgn pte vicpgn : ℕ) → Option Caller
unfolding enlist_pgn_node get_pte set_pte get_freefp
swap_in caller mm pgn pte vicpgn = do
  let tgtfpn = pte_swp pte
  vicpte ← get_pte mm vicpgn
  let vicframe_num = pte_fpn vicpte
  swpfpn ← (get_freefp caller.active_mswp).fpn
  (mram, mswp) ← swap_cp_page caller.mram vicframe_num (get_freefp caller.active_mswp).memphy swpfpn
  (mswp', mram') ← swap_cp_page mswp tgtfpn mram vicframe_num
  mm1 ← set_pte mm vicpgn (pte_set_swap vicpte 0 swpfpn)
  tgtpte ← get_pte mm1 pgn
  mm2 ← set_pte mm1 pgn (pte_set_fpn tgtpte vicframe_num)
  some (record {
    mm = record mm2 { fifo_pgn = enlist_pgn_node mm2.fifo_pgn pgn };
    mram = mram';
    active_mswp = mswp';
  })

-- `*fpn = PAGING_FPN(mm->pgd[pgn])`
page_of : Caller → (pgn : ℕ) → Option Page
unfolding get_pte
page_of caller pgn = do
  pte ← get_pte caller.mm pgn
  some (record { result = 0; fpn = some (pte_fpn pte); caller = caller })

-- What `pg_getpage` does for a page that is not present, with the victim if there is one.
replace_page : Caller → (pgn pte : ℕ) → Option (ℕ × List ℕ) → Option Page
unfolding swap_in page_of
replace_page caller pgn pte none = some (record { result = minus_one; fpn = none; caller = caller })
replace_page caller pgn pte (some (vicpgn, left)) = do
  after ← swap_in caller (record caller.mm { fifo_pgn = left }) pgn pte vicpgn
  page_of after pgn

-- `mm` is `caller->mm` in every call.
pub pg_getpage : Caller → (pgn : ℕ) → Option Page
unfolding get_pte find_victim_page page_of replace_page
pg_getpage caller pgn =
    if is_neg pgn || leb max_pgn pgn
    then some (record { result = minus_one; fpn = none; caller = caller })
    else (do
      pte ← get_pte caller.mm pgn
      let swapped = replace_page caller pgn pte (find_victim_page caller.mm.fifo_pgn)
      if page_present pte then page_of caller pgn else swapped)

-- The physical address that `pg_getval` and `pg_setval` compute.
abbrev pub phy_addr : (fpn addr : ℕ) → ℕ
phy_addr fpn addr = int_add (u32 (fpn * 2 ^ addr_lobit)) (addr_offst addr)

-- The `int` result, the byte stored through `data`, if one is, and the caller.
pub record Value : Type 0 where
  pub result : ℕ
  pub byte : Option ℕ
  pub caller : Caller

value_in : Page → (addr : ℕ) → Option Value
value_in page addr = do
  fpn ← page.fpn
  r ← read page.caller.mram (phy_addr fpn addr)
  some (record { result = 0; byte = r.value; caller = record page.caller { mram = r.memphy } })

pub pg_getval : Caller → (addr : ℕ) → Option Value
unfolding pg_getpage value_in
pg_getval caller addr = do
  page ← pg_getpage caller (addr_pgn addr)
  let failed = some (record { result = minus_one; byte = none; caller = page.caller })
  if page.result == 0 then value_in page addr else failed

write_in : Page → (addr value : ℕ) → Option Return
write_in page addr value = do
  fpn ← page.fpn
  w ← write page.caller.mram (phy_addr fpn addr) value
  some (record { result = 0; caller = record page.caller { mram = w.memphy } })

pub pg_setval : Caller → (addr value : ℕ) → Option Return
unfolding pg_getpage write_in
pg_setval caller addr value = do
  page ← pg_getpage caller (addr_pgn addr)
  let failed = some (record { result = minus_one; caller = page.caller })
  if page.result == 0 then write_in page addr value else failed

-- The address `currg->rg_start + offset`, as the `int` that it is passed as.
abbrev pub region_addr : Region → (offset : ℕ) → ℕ
region_addr rg offset = u32 (rg.rg_start + sext offset)

-- `__read` and `__write`. The results of `pg_getval` and `pg_setval` are ignored.
pub read_region : Caller → (vmaid rgid offset : ℕ) → Option Value
unfolding get_symrg_byid pg_getval
read_region caller vmaid rgid offset = do
  let refused = some (record { result = minus_one; byte = none; caller = caller })
  cur_vma ← get_vma_by_num caller.mm vmaid
  elim (get_symrg_byid caller.mm rgid) [
    | none ↦ refused
    | some place ↦ elim cur_vma [
      | none ↦ refused
      | some _ ↦ (do
        rg ← get_elem? caller.mm.symrgtbl place
        v ← pg_getval caller (region_addr rg offset)
        some (record v { result = 0 }))
    ]
  ]

pub write_region : Caller → (vmaid rgid offset value : ℕ) → Option Return
unfolding get_symrg_byid pg_setval
write_region caller vmaid rgid offset value = do
  let refused = some (record { result = minus_one; caller = caller })
  cur_vma ← get_vma_by_num caller.mm vmaid
  elim (get_symrg_byid caller.mm rgid) [
    | none ↦ refused
    | some place ↦ elim cur_vma [
      | none ↦ refused
      | some _ ↦ (do
        rg ← get_elem? caller.mm.symrgtbl place
        r ← pg_setval caller (region_addr rg offset) value
        some (record r { result = 0 }))
    ]
  ]

-- The `int` result of `libread`, `*destination`, and the process. `none` for the destination is the
-- byte `data` that nobody set.
pub record Destination : Type 0 where
  pub result : ℕ
  pub destination : Option ℕ
  pub proc : Caller

destination_of : Value → Option ℕ → Destination
destination_of v none = record { result = v.result; destination = none; proc = v.caller }
destination_of v (some b) = record {
  result = v.result;
  destination = some (sext_byte b);
  proc = v.caller;
}

pub libread : Caller → (source offset : ℕ) → Option Destination
unfolding read_region destination_of
libread proc source offset = do v ← read_region proc 0 source offset; some (destination_of v v.byte)

pub libwrite : Caller → (data_ destination offset : ℕ) → Option Return
unfolding write_region
libwrite proc data_ destination offset = write_region proc 0 destination offset data_

-- The loop of `free_pcb_memph` from page `pagenum` on.
pub free_pages : ℕ → (pagenum : ℕ) → Caller → Caller
free_pages zero pagenum caller = caller
free_pages (suc n) pagenum caller =
    let pte = caller.mm.pgd pagenum in
    free_pages n (suc pagenum) (
      if not (page_present pte)
      then record caller { mram = put_freefp caller.mram (pte_fpn pte) }
      else record caller { active_mswp = put_freefp caller.active_mswp (pte_swp pte) })

pub free_pcb_memph : Caller → Caller
unfolding free_pages
free_pcb_memph caller = free_pages max_pgn 0 caller
