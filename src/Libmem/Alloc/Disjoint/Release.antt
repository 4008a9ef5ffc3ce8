-- ===== src/Libmem/Alloc/Disjoint/Release.antt =====
-- `__free` keeps the regions of the heap apart.
use simple_32bit_os.Base.{
  get_or, get_elem?-eq-get_or, ℕ, ◌-◌, ◌<◌, ◌≤◌, ◌≡◌, refl, ◌∙◌, inl, inr, Bool-cases, some, ◌∷◌,
  arith, leb, ltb, true, minus_one, get_elem?, length, set, length-set, get_elem?-lt,
}
use simple_32bit_os.Memory.{Region, Vma, Caller, Return, max_symtbl_sz}
use simple_32bit_os.Mm.Isolated.Keeps.{Keeps, Keeps-same}
use simple_32bit_os.Libmem.FreeList.{set_symrg, enlist_on, enlist_vm_freerg_list}
use simple_32bit_os.Libmem.FreeList.Search.{covers}
use simple_32bit_os.Libmem.Alloc.{free}
use simple_32bit_os.Libmem.Alloc.Free.{unset, freed, free-freed, valid_rgid}
use simple_32bit_os.Libmem.Alloc.Disjoint.{IsHeap, cover-set, covers-le-cover}

covers-unset : (r : Region) (x : ℕ) → covers (unset r) x ≡ 0
covers-unset r x = ground arith

-- The last byte of a region that is not empty is below the break.
pub region_below :
    {caller : Caller} {vma : Vma} (rgid : ℕ) (rg : Region)
    → IsHeap caller vma
    → get_elem? caller.mm.symrgtbl rgid ≡ some rg
    → rg.rg_start < rg.rg_end
    → rg.rg_end ≤ vma.sbrk
region_below {caller} {vma} rgid rg h at full =
    let last : covers rg (rg.rg_end - 1) ≡ 1 = ground arith in
    let inside = covers-le-cover caller.mm.symrgtbl rgid rg (rg.rg_end - 1) at in
    elim (Bool-cases (leb vma.sbrk (rg.rg_end - 1))) [
      | inl over ↦ absurd (omega (arith, h.below (rg.rg_end - 1) (ground arith), inside, last))
      | inr under ↦ ground arith
    ]

-- The regions after `__free` of a symbol that is not empty.
freed-IsHeap :
    {caller : Caller} {vma : Vma} (rgid : ℕ) (rg : Region)
    → IsHeap caller vma
    → get_elem? caller.mm.symrgtbl rgid ≡ some rg
    → rg.rg_start < rg.rg_end
    → IsHeap (freed caller vma rgid rg) (record vma { vm_freerg_list = rg ∷ vma.vm_freerg_list })
freed-IsHeap {caller} {vma} rgid rg h at full =
    let low = region_below rgid rg h at full in
    record {
      one = refl;
      number = h.number;
      ordered = h.ordered;
      table = length-set caller.mm.symrgtbl rgid (unset rg) ∙ h.table;
      once = λ x. omega (
        arith,
        h.once x,
        cover-set caller.mm.symrgtbl rgid rg (unset rg) x at,
        covers-unset rg x,
      );
      below = λ x le. omega (
        arith,
        h.below x le,
        cover-set caller.mm.symrgtbl rgid rg (unset rg) x at,
        covers-unset rg x,
      );
      bounded = ((omega (arith, low, h.small), omega (arith, low, h.small)), h.bounded);
      small = h.small;
    }

-- In a heap whose regions are apart, `__free` of a symbol whose region is not empty succeeds: the region
-- is in front of the free list, the symbol has none, and the regions are apart again.
pub free-IsHeap :
    (caller : Caller) (vma : Vma) (vmaid rgid : ℕ) (rg : Region)
    → IsHeap caller vma
    → get_elem? caller.mm.symrgtbl rgid ≡ some rg
    → rg.rg_start < rg.rg_end
    → (after : Caller) × (free caller vmaid rgid ≡ some (record { result = 0; caller = after }))
      × (after.mm.symrgtbl ≡ set caller.mm.symrgtbl rgid (unset rg))
      × IsHeap after (record vma { vm_freerg_list = rg ∷ vma.vm_freerg_list })
      × Keeps caller after
free-IsHeap caller vma vmaid rgid rg h at full =
    let valid : rgid < max_symtbl_sz =
      omega (arith, get_elem?-lt caller.mm.symrgtbl rgid rg at, h.table) in
    (
      freed caller vma rgid rg,
      free-freed caller vma vmaid rgid rg h.one valid at full,
      refl,
      freed-IsHeap rgid rg h at full,
      Keeps-same refl refl,
    )

-- A symbol whose region is empty is refused; its bounds are set all the same.
free-empty :
    (caller : Caller) (vma : Vma) (vmaid rgid : ℕ) (rg : Region)
    → IsHeap caller vma
    → get_elem? caller.mm.symrgtbl rgid ≡ some rg
    → rg.rg_end ≤ rg.rg_start
    → (after : Caller) × (free caller vmaid rgid
        ≡ some (record { result = minus_one; caller = after }))
      × IsHeap after vma
      × Keeps caller after
unfolding free set_symrg enlist_vm_freerg_list enlist_on
free-empty caller vma vmaid rgid rg h at empty =
    let lt = get_elem?-lt caller.mm.symrgtbl rgid rg at in
    let good = valid_rgid rgid (omega (arith, lt, h.table)) in
    let inside : ltb rgid (length caller.mm.symrgtbl) ≡ true = ground (arith, lt) in
    let test : leb rg.rg_end rg.rg_start ≡ true = ground arith in
    let same = λ (x : ℕ). cover-set caller.mm.symrgtbl rgid rg (unset rg) x at in
    (
      record caller { mm = record caller.mm { symrgtbl = set caller.mm.symrgtbl rgid (unset rg) } },
      rw (good, at, inside, h.one, test) refl,
      record {
        one = h.one;
        number = h.number;
        ordered = h.ordered;
        table = length-set caller.mm.symrgtbl rgid (unset rg) ∙ h.table;
        once = λ x. omega (arith, h.once x, same x, covers-unset rg x);
        below = λ x le. omega (arith, h.below x le, same x, covers-unset rg x);
        bounded = h.bounded;
        small = h.small;
      },
      Keeps-same refl refl,
    )

-- `__free` of any symbol of the table returns, and leaves break, end and frames where they are.
pub free-total :
    (caller : Caller) (vma : Vma) (vmaid rgid : ℕ)
    → IsHeap caller vma
    → rgid < max_symtbl_sz
    → (r : Return) × (vma' : Vma) × (free caller vmaid rgid ≡ some r)
      × IsHeap r.caller vma'
      × (vma'.sbrk ≡ vma.sbrk)
      × (vma'.vm_end ≡ vma.vm_end)
      × Keeps caller r.caller
free-total caller vma vmaid rgid h valid =
    let rg = get_or caller.mm.symrgtbl rgid (record { vmaid = 0; rg_start = 0; rg_end = 0 }) in
    let at : get_elem? caller.mm.symrgtbl rgid ≡ some rg =
      get_elem?-eq-get_or caller.mm.symrgtbl rgid (record { vmaid = 0; rg_start = 0; rg_end = 0 })
        (omega (arith, h.table)) in
    elim (Bool-cases (leb rg.rg_end rg.rg_start)) [
      | inl empty ↦
          let (after, e, h', keeps) = free-empty caller vma vmaid rgid rg h at (ground arith) in
          (record { result = minus_one; caller = after }, vma, e, h', refl, refl, keeps)
      | inr full ↦
          let (after, e, _, h', keeps) = free-IsHeap caller vma vmaid rgid rg h at (ground arith) in
          (
            record { result = 0; caller = after },
            record vma { vm_freerg_list = rg ∷ vma.vm_freerg_list },
            e,
            h',
            refl,
            refl,
            keeps,
          )
    ]
