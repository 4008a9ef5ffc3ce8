-- ===== src/Libmem/Alloc.antt =====
-- src/libmem.c: `__alloc` and `__free`. `mmvm_lock` makes `__alloc` one step.
pub mod Free
pub mod Heap
pub mod Reuse
pub mod Disjoint
use simple_32bit_os.Base.{
  ℕ, zero, suc, ◌+◌, ◌-◌, ◌*◌, ◌^◌, Bool, true, false, Option, none, some, List, [], ◌∷◌, ltb, leb,
  ◌==◌, not, ◌&&◌, ◌||◌, if◌then◌else◌, get_elem?, length, set, ◌>>=◌, u32, u64, sext, sext_byte,
  is_neg, minus_one, minus_one_long, int_le, int_add, int_sub,
}
use simple_32bit_os.Pte.{
  max_pgn, page_alignsz, page_present, pte_fpn, pte_swp, addr_pgn, addr_offst, addr_lobit,
  pte_set_swap, pte_set_fpn,
}
use simple_32bit_os.Memphy.{Memphy, read, write, get_freefp, put_freefp, swap_cp_page}
use simple_32bit_os.Memory.{
  Region, Vma, Mm, Caller, Return, max_symtbl_sz, get_pte, set_pte, set_vma,
}
use simple_32bit_os.Mm.{enlist_pgn_node}
use simple_32bit_os.Vm.{get_vma_by_num, inc_vma_limit}
use simple_32bit_os.Libmem.FreeList.{get_free_vmrg_area, bad_rgid, set_symrg, enlist_vm_freerg_list}

-- The `int` result of `__alloc`, what it stores through `alloc_addr`, if it does, and the caller.
pub record Alloc : Type 0 where
  pub result : ℕ
  pub alloc_addr : Option ℕ
  pub caller : Caller

-- `symrgtbl[rgid]` with the bounds, and `*alloc_addr`.
pub commit : Caller → (rgid : ℕ) → Region → (addr : ℕ) → Option Alloc
unfolding set_symrg
commit caller rgid rg addr = do
  mm ← set_symrg caller.mm rgid rg
  some (record { result = 0; alloc_addr = some addr; caller = record caller { mm = mm } })

pub move_sbrk : Caller → (place : ℕ) → (ℕ → ℕ) → Option Caller
unfolding set_vma
move_sbrk caller place f = do
  vma ← get_elem? caller.mm.mmap place
  some (record caller { mm = set_vma caller.mm place (record vma { sbrk = f vma.sbrk }) })

-- The branch of `__alloc` for the heap, `vmaid == 0`. The result of `inc_vma_limit` is ignored.
pub alloc_heap : Caller → (place : ℕ) → Vma → (vmaid rgid size : ℕ) → Region → Option Alloc
unfolding commit move_sbrk
alloc_heap caller place cur_vma vmaid rgid size rgnode =
    let old_sbrk = u32 cur_vma.sbrk in
    let gap_size = u32 (cur_vma.vm_end + 2 ^ 64 - sext old_sbrk) in
    let rg : Region = record {
      vmaid = sext vmaid;
      rg_start = sext old_sbrk;
      rg_end = sext (int_add old_sbrk size);
    } in
    let inside = (do
      moved ← move_sbrk caller place (λ top. u64 (top + sext size))
      commit moved rgid rg (u32 rgnode.rg_start)) in
    let outside = (do
      grown ← inc_vma_limit caller vmaid (page_alignsz size)
      done ← commit grown.caller rgid rg (u32 rgnode.rg_start)
      moved ← move_sbrk done.caller place (λ top. u64 (top + sext size))
      some (record done { caller = moved })) in
    if int_le size gap_size then inside else outside

-- The branch for `vmaid == 1`.
pub alloc_stack : Caller → (place : ℕ) → Vma → (vmaid rgid size : ℕ) → Region → Option Alloc
unfolding commit move_sbrk
alloc_stack caller place cur_vma vmaid rgid size rgnode =
    let old_sbrk = u32 cur_vma.sbrk in
    let gap_size = u32 (sext old_sbrk + 2 ^ 64 - cur_vma.vm_end) in
    let rg : Region = record {
      vmaid = sext vmaid;
      rg_start = sext (int_sub old_sbrk size);
      rg_end = sext old_sbrk;
    } in
    let inside = commit caller rgid rg (u32 rgnode.rg_end) in
    let outside = (do
      grown ← inc_vma_limit caller vmaid (page_alignsz size)
      done ← commit grown.caller rgid rg (u32 rgnode.rg_start)
      moved ← move_sbrk done.caller place (λ top. u64 (top + 2 ^ 64 - sext size))
      some (record done { caller = moved })) in
    if int_le size gap_size then inside else outside

-- Behind a search that found nothing.
pub alloc_at_brk : Caller → (vmaid rgid size : ℕ) → Region → Option Alloc
alloc_at_brk caller vmaid rgid size rgnode = do
  found ← get_vma_by_num caller.mm vmaid
  place ← found
  cur_vma ← get_elem? caller.mm.mmap place
  let heap = alloc_heap caller place cur_vma vmaid rgid size rgnode
  let stack = alloc_stack caller place cur_vma vmaid rgid size rgnode
  let refused = some (record { result = minus_one; alloc_addr = none; caller = caller })
  if vmaid == 0 then heap else if vmaid == 1 then stack else refused

-- `__alloc`; `junk` is the local `rgnode` before anything is set in it.
pub alloc : Caller → (vmaid rgid size : ℕ) → (junk : Region) → Option Alloc
unfolding bad_rgid
alloc caller vmaid rgid size junk =
    if bad_rgid rgid
    then some (record { result = minus_one; alloc_addr = none; caller = caller })
    else (do
      free ← get_free_vmrg_area caller.mm vmaid size (record junk { vmaid = sext vmaid })
      let after = record caller { mm = free.mm }
      let reused = commit after rgid free.newrg (u32 free.newrg.rg_start)
      let fresh = alloc_at_brk after vmaid rgid size free.newrg
      if free.result == 0 then reused else fresh)

-- `__free`; `vmaid` is not used.
pub free : Caller → (vmaid rgid : ℕ) → Option Return
unfolding bad_rgid set_symrg enlist_vm_freerg_list
free caller vmaid rgid =
    if bad_rgid rgid then some (record { result = minus_one; caller = caller }) else (do
      cur_rg ← get_elem? caller.mm.symrgtbl rgid
      mm ←
          set_symrg caller.mm rgid
            (record cur_rg { rg_start = minus_one_long; rg_end = minus_one_long })
      flag ← enlist_vm_freerg_list mm cur_rg
      some (record {
        result = if flag.result == 0 then 0 else minus_one;
        caller = record caller { mm = flag.mm };
      }))

-- The arguments of the `lib` functions are `uint32_t`, which become `int` with the same pattern.
pub liballoc : Caller → (size reg_index : ℕ) → (junk : Region) → Option Alloc
unfolding alloc
liballoc proc size reg_index junk = alloc proc 0 reg_index size junk

pub libfree : Caller → (reg_index : ℕ) → Option Return
unfolding free
libfree proc reg_index = free proc 0 reg_index
