-- ===== src/Libmem/Alloc/Free.antt =====
-- `__free` and the bounds of the symbol table.
use simple_32bit_os.Base.{
  ℕ, ◌<◌, ◌≤◌, ◌≡◌, none, some, arith, ltb, leb, ◌||◌, true, false, minus_one, minus_one_long,
  is_neg, [], ◌∷◌, get_elem?, length, set, get_elem?-lt, get_elem?-none, get_elem?-set_self,
  length-set, set-set,
}
use simple_32bit_os.Memory.{Region, Vma, Caller, max_symtbl_sz}
use simple_32bit_os.Libmem.FreeList.{bad_rgid, set_symrg, enlist_vm_freerg_list, enlist_on}
use simple_32bit_os.Libmem.Alloc.{alloc, free}

abbrev pub unset : Region → Region
unset rg = record rg { rg_start = minus_one_long; rg_end = minus_one_long }

-- The caller with a region in front of the free list of its only area and the symbol unset.
abbrev pub freed : Caller → Vma → (rgid : ℕ) → Region → Caller
freed caller vma rgid rg = record caller {
  mm = record caller.mm {
    mmap = record vma { vm_freerg_list = rg ∷ vma.vm_freerg_list } ∷ [];
    symrgtbl = set caller.mm.symrgtbl rgid (unset rg);
  };
}

pub valid_rgid : (rgid : ℕ) → rgid ≤ max_symtbl_sz → bad_rgid rgid ≡ false
unfolding bad_rgid
valid_rgid rgid h = ground arith

-- A symbol number above 30, or a negative one, is refused by `__alloc` and `__free`, and nothing
-- changes.
pub bad_rgid-refused :
    (caller : Caller) (vmaid rgid size : ℕ) (junk : Region)
    → max_symtbl_sz < rgid
    → (alloc caller vmaid rgid size junk
        ≡ some (record { result = minus_one; alloc_addr = none; caller = caller }))
      × (free caller vmaid rgid ≡ some (record { result = minus_one; caller = caller }))
unfolding alloc free bad_rgid
bad_rgid-refused caller vmaid rgid size junk h =
    let bad : (is_neg rgid || ltb max_symtbl_sz rgid) ≡ true = ground arith in (rw bad, rw bad)

-- A symbol number that passes the guard and is not inside the table, as 30 is for a table of 30
-- symbols: `__free` reads behind the table.
pub free-behind_table :
    (caller : Caller) (vmaid rgid : ℕ)
    → rgid ≤ max_symtbl_sz
    → length caller.mm.symrgtbl ≤ rgid
    → free caller vmaid rgid ≡ none
unfolding free
free-behind_table caller vmaid rgid h outside =
    rw (valid_rgid rgid h, get_elem?-none caller.mm.symrgtbl rgid outside)

-- In a space with one area, `__free` of a symbol whose region is not empty puts that region in front
-- of the free list and unsets the symbol.
pub free-freed :
    (caller : Caller) (vma : Vma) (vmaid rgid : ℕ) (rg : Region)
    → caller.mm.mmap ≡ vma ∷ []
    → rgid < max_symtbl_sz
    → get_elem? caller.mm.symrgtbl rgid ≡ some rg
    → rg.rg_start < rg.rg_end
    → free caller vmaid rgid ≡ some (record { result = 0; caller = freed caller vma rgid rg })
unfolding free set_symrg enlist_vm_freerg_list enlist_on
free-freed caller vma vmaid rgid rg one h symbol full =
    let good = valid_rgid rgid (omega arith) in
    let inside : ltb rgid (length caller.mm.symrgtbl) ≡ true =
      ground (arith, get_elem?-lt caller.mm.symrgtbl rgid rg symbol) in
    let test : leb rg.rg_end rg.rg_start ≡ false = ground arith in
    rw (good, symbol, inside, one, test)

-- In a space with one area, a symbol whose region is not empty is freed, and not freed twice: the
-- second `__free` returns -1, and changes nothing.
pub free-free :
    (caller : Caller) (vma : Vma) (vmaid rgid : ℕ) (rg : Region)
    → caller.mm.mmap ≡ vma ∷ []
    → rgid < max_symtbl_sz
    → get_elem? caller.mm.symrgtbl rgid ≡ some rg
    → rg.rg_start < rg.rg_end
    → (after : Caller) × (free caller vmaid rgid ≡ some (record { result = 0; caller = after }))
      × (free after vmaid rgid ≡ some (record { result = minus_one; caller = after }))
unfolding set_symrg enlist_vm_freerg_list enlist_on
free-free caller vma vmaid rgid rg one h symbol full =
    let after = freed caller vma rgid rg in
    let good = valid_rgid rgid (omega arith) in
    let old = get_elem?-lt caller.mm.symrgtbl rgid rg symbol in
    let now = get_elem?-set_self caller.mm.symrgtbl rgid (unset rg) old in
    let inside : ltb rgid (length after.mm.symrgtbl) ≡ true =
      ground (arith, old, length-set caller.mm.symrgtbl rgid (unset rg)) in
    (
      after,
      free-freed caller vma vmaid rgid rg one h symbol full,
      unfold free in rw (good, now, inside, set-set caller.mm.symrgtbl rgid (unset rg)),
    )
