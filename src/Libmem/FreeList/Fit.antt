-- ===== src/Libmem/FreeList/Fit.antt =====
-- What the search of `get_free_vmrg_area` returns lies in a free region of the list; for size 0 it
-- need not end.
use simple_32bit_os.Libmem.FreeList.Bounded.{Bounded, probe-Bounded}
use simple_32bit_os.Base.{
  Holds, Holds-bind, ◌>>=◌, Option, All, Holds-some, ◌⊎◌, inl, inr, ℕ, zero, suc, ◌+◌, ◌<◌, ◌^◌,
  ◌≡◌, inl, inr, refl, ap, none, some, arith, ltb, leb, ◌==◌, if◌then◌else◌, true, false, minus_one,
  minus_one_long, u64, sext, List, [], ◌∷◌, get_elem?, length, set,
}
use simple_32bit_os.Memory.{Region, Vma, Mm, set_vma}
use simple_32bit_os.Vm.Areas.{get_vma_by_num-one}
use simple_32bit_os.Libmem.FreeList.{
  Probe, FreeArea, fitted, probe, search_list, get_free_vmrg_area, get_vma_by_num,
}
use simple_32bit_os.Libmem.FreeList.Search.{
  NoneFits, NoWrap, TakenFrom, Splits, Searched, nothing, fit, probe-Searched,
}

-- What `get_free_vmrg_area` returns: a failure, when nothing fits, or the region that it found,
-- which is no longer free in the area at `place`.
pub data Answer (areas : List Vma) (place : ℕ) (vma : Vma) (vmaid n : ℕ) (rs : List Region)
    (a : FreeArea) : Type 0 where
  refused :
      a.result ≡ minus_one
      → NoneFits vmaid n rs
      → (a.mm.mmap ≡ areas) ⊎ (a.mm.mmap ≡ set areas place (record vma { vm_freerg_list = rs }))
      → Answer areas place vma vmaid n rs a
  found :
      (left : List Region)
      → a.result ≡ 0
      → TakenFrom n rs a.newrg
      → Splits rs left a.newrg
      → a.mm.mmap ≡ set areas place (record vma { vm_freerg_list = left })
      → (All Bounded rs → All Bounded left)
      → Answer areas place vma vmaid n rs a

start-below :
    (n : ℕ) (rs : List Region) (new : Region)
    → 0 < n
    → NoWrap n rs
    → TakenFrom n rs new
    → new.rg_start < minus_one_long
start-below n [] new pos wrap taken = absurd taken
start-below n (r ∷ rs) new pos wrap (inl (f, s, e)) = omega (arith, wrap.0.0)
start-below n (r ∷ rs) new pos wrap (inr taken) = start-below n rs new pos wrap.1 taken

-- The test behind the loop, when `newrg` started with both bounds -1.
Answer-result :
    (mm : Mm) (place : ℕ) (vma : Vma) (vmaid n : ℕ) (rs : List Region) (old : Region) (p : Probe)
    → 0 < n
    → NoWrap n rs
    → old.rg_start ≡ minus_one_long
    → Searched vmaid n rs old p
    → (All Bounded rs → All Bounded p.freerg)
    → Answer mm.mmap place vma vmaid n rs (record {
      result = if p.newrg.rg_start == minus_one_long then minus_one else 0;
      newrg = p.newrg;
      mm = set_vma mm place (record vma { vm_freerg_list = p.freerg });
    })
unfolding set_vma
Answer-result mm place vma vmaid n rs old p pos wrap unset (nothing none_) small =
    refused (ground (arith, unset)) none_ (inr refl)
Answer-result mm place vma vmaid n rs old p pos wrap unset (fit p' taken splits) small =
    found p'.freerg (ground (arith, start-below n rs p'.newrg pos wrap taken)) taken splits refl
      small

search_list-Answer :
    (mm : Mm) (place : ℕ) (vma : Vma) (rs : List Region) (vmaid size : ℕ) (newrg : Region)
    → 0 < sext size
    → NoWrap (sext size) rs
    → (a : FreeArea) × (search_list mm place vma rs vmaid size newrg ≡ some a)
      × Answer mm.mmap place vma vmaid (sext size) rs a
      × (a.mm.symrgtbl ≡ mm.symrgtbl)
unfolding search_list set_vma
search_list-Answer mm place vma [] vmaid size newrg pos wrap =
    (record { result = minus_one; newrg = newrg; mm = mm }, refl, refused refl tt (inl refl), refl)
search_list-Answer mm place vma (r ∷ rest) vmaid size newrg pos wrap =
    let unset = record newrg { rg_start = minus_one_long; rg_end = minus_one_long } in
    let (p, e, s) =
      probe-Searched vmaid size pos (length (r ∷ rest) + 2) (r ∷ rest) unset (omega arith) wrap in
    (
      _,
      rw e refl,
      Answer-result mm place vma vmaid (sext size) (r ∷ rest) unset p pos wrap refl s λ v.
          Holds-some (λ q. All Bounded q.freerg)
            (probe-Bounded vmaid size (length (r ∷ rest) + 2) (r ∷ rest) unset v) e,
      refl,
    )

-- In a space with one area, number 0, for a size that is not 0, and when no bound of a free region
-- wraps when the size is added, `get_free_vmrg_area` ends. It returns 0 and the first bytes of a
-- free region in which the size fits, and no address is then in the free regions and the returned
-- one more often than it was in the free regions; or it returns -1, the areas stay as they were, and
-- the size fits in no region, up to the first one of another area. The symbol table stays.
pub get_free_vmrg_area-Answer :
    (mm : Mm) (vma : Vma) (size : ℕ) (newrg : Region)
    → mm.mmap ≡ vma ∷ []
    → vma.vm_id ≡ 0
    → 0 < sext size
    → NoWrap (sext size) vma.vm_freerg_list
    → (a : FreeArea) × (get_free_vmrg_area mm 0 size newrg ≡ some a)
      × Answer mm.mmap 0 vma 0 (sext size) vma.vm_freerg_list a
      × (a.mm.symrgtbl ≡ mm.symrgtbl)
unfolding get_free_vmrg_area
get_free_vmrg_area-Answer mm vma size newrg one number pos wrap =
    let (a, e, answer, symbols) =
      search_list-Answer mm 0 vma vma.vm_freerg_list 0 size newrg pos wrap in
    let first : get_elem? mm.mmap 0 ≡ some vma = ap (λ areas. get_elem? areas 0) one in
    (a, rw (get_vma_by_num-one mm vma 0 one number, first) e, answer, symbols)

abbrev SameTable : Mm → FreeArea → Type 0
SameTable mm a = a.mm.pgd ≡ mm.pgd

-- The search leaves the page table.
search_list-pgd :
    (mm : Mm) (place : ℕ) (vma : Vma) (rs : List Region) (vmaid size : ℕ) (newrg : Region)
    → Holds (SameTable mm) (search_list mm place vma rs vmaid size newrg)
unfolding search_list set_vma
search_list-pgd mm place vma [] vmaid size newrg = refl
search_list-pgd mm place vma (r ∷ rest) vmaid size newrg =
    let unset = record newrg { rg_start = minus_one_long; rg_end = minus_one_long } in
    let found = probe (length (r ∷ rest) + 2) vmaid size (r ∷ rest) unset in
    Holds-bind (SameTable mm) found _ (λ p _. refl)

search_at-pgd :
    (mm : Mm) (vmaid size : ℕ) (newrg : Region) (place : ℕ)
    → Holds (SameTable mm) (do
      vma ← get_elem? mm.mmap place
      search_list mm place vma vma.vm_freerg_list vmaid size newrg)
search_at-pgd mm vmaid size newrg place =
    Holds-bind (SameTable mm) (get_elem? mm.mmap place)
      (λ (vma : Vma). search_list mm place vma vma.vm_freerg_list vmaid size newrg)
      (λ vma _. search_list-pgd mm place vma vma.vm_freerg_list vmaid size newrg)

search_in-pgd :
    (mm : Mm) (vmaid size : ℕ) (newrg : Region) (found : Option (Option ℕ))
    → Holds (SameTable mm) (do
      number ← found
      place ← number
      vma ← get_elem? mm.mmap place
      search_list mm place vma vma.vm_freerg_list vmaid size newrg)
search_in-pgd mm vmaid size newrg none = tt
search_in-pgd mm vmaid size newrg (some none) = tt
search_in-pgd mm vmaid size newrg (some (some place)) = search_at-pgd mm vmaid size newrg place

pub get_free_vmrg_area-pgd :
    (mm : Mm) (vmaid size : ℕ) (newrg : Region) {a : FreeArea}
    → get_free_vmrg_area mm vmaid size newrg ≡ some a
    → a.mm.pgd ≡ mm.pgd
unfolding get_free_vmrg_area
get_free_vmrg_area-pgd mm vmaid size newrg =
    Holds-some (SameTable mm) (search_in-pgd mm vmaid size newrg (get_vma_by_num mm vmaid))

-- For size 0 the search does not end once it is at an empty region of its area at the end of the
-- list, whose end is an `unsigned long`: no fuel is enough.
pub probe-endless :
    (fuel vmaid : ℕ) (r old : Region)
    → r.vmaid ≡ sext vmaid
    → r.rg_start ≡ r.rg_end
    → r.rg_end < 2 ^ 64
    → probe fuel vmaid 0 (r ∷ []) old ≡ none
unfolding probe
probe-endless zero vmaid r old same empty small = refl
probe-endless (suc fuel) vmaid r old same empty small =
    let t1 : (r.vmaid == sext vmaid) ≡ true = ground arith in
    let t2 : leb (u64 (r.rg_start + sext 0)) r.rg_end ≡ true = ground arith in
    let t3 : ltb (u64 (r.rg_start + sext 0)) r.rg_end ≡ false = ground arith in
    rw (t1, t2, t3)
      (probe-endless fuel vmaid (record r { rg_start = r.rg_end }) (fitted old 0 r) same refl small)
