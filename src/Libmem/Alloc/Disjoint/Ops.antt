-- ===== src/Libmem/Alloc/Disjoint/Ops.antt =====
-- Any sequence of calls of the memory library that allocate and free, by any processes on one RAM.
use simple_32bit_os.Base.{
  ℕ, ◌+◌, ◌*◌, ◌<◌, ◌≤◌, ◌^◌, ◌≡◌, inl, inr, refl, sym, ap, subst, ◌∙◌, Option, some, List, [], ◌∷◌,
  arith, ◌>>=◌, ◌==◌, ==_iff, ==_self, if◌then◌else◌, Bool-cases,
}
use simple_32bit_os.Pte.{pagesz, max_pgn, page_alignsz}
use simple_32bit_os.Pte.Arithmetic.{addr_pgn_lem}
use simple_32bit_os.Pte.Fields.{page_alignsz_lem}
use simple_32bit_os.Memory.{Region, Vma, Caller, max_symtbl_sz}
use simple_32bit_os.Queue.{Ptr}
use simple_32bit_os.Mm.Isolated.Requests.{Spaces, caller_of, after_call, Isolated}
use simple_32bit_os.Libmem.Alloc.{liballoc, libfree}
use simple_32bit_os.Libmem.Alloc.Disjoint.{IsHeap}
use simple_32bit_os.Libmem.Alloc.Disjoint.Break.{HasRoom}
use simple_32bit_os.Libmem.Alloc.Disjoint.Place.{alloc-Placed, IsHeap-same}
use simple_32bit_os.Libmem.Alloc.Disjoint.Release.{free-total}

-- A call by process `p` of `liballoc`, with what was in its local variable, or of `libfree`.
pub data Op : Type 0 where
  allocate : (p : Ptr) (reg_index size : ℕ) (junk : Region) → Op
  release : (p : Ptr) (reg_index : ℕ) → Op

abbrev pub exec : List Op → Spaces → Option Spaces
exec [] s = some s
exec (allocate p reg_index size junk ∷ ops) s = do
  out ← liballoc (caller_of s p) size reg_index junk
  exec ops (after_call s p out.caller)
exec (release p reg_index ∷ ops) s = do
  r ← libfree (caller_of s p) reg_index
  exec ops (after_call s p r.caller)

-- Symbols are inside the table, and sizes not 0 and not near the end of an `int`.
abbrev pub InRange : List Op → Type 0
InRange [] = Unit
InRange (allocate p reg_index size junk ∷ ops) =
    (reg_index < max_symtbl_sz) × (0 < size) × (size + 511 < 2 ^ 31) × InRange ops
InRange (release p reg_index ∷ ops) = (reg_index < max_symtbl_sz) × InRange ops

-- How far the break of a process may move: twice the aligned size for each of its allocations.
abbrev pub cost : Ptr → List Op → ℕ
cost q [] = 0
cost q (allocate p reg_index size junk ∷ ops) =
    (if q == p then 2 * page_alignsz size else 0) + cost q ops
cost q (release p reg_index ∷ ops) = cost q ops

-- In each space the regions are apart.
abbrev pub Heaps : Spaces → (Ptr → Vma) → Type 0
Heaps s vma = (q : Ptr) → IsHeap (caller_of s q) (vma q)

-- The calls of each process fit behind its break and end in the page table.
abbrev pub Fits : (Ptr → Vma) → List Op → Type 0
Fits vma ops =
    (q : Ptr)
    → ((vma q).sbrk + cost q ops ≤ max_pgn * pagesz)
      × ((vma q).vm_end + cost q ops ≤ max_pgn * pagesz)

has_room :
    (vma : Vma) (size more : ℕ)
    → size + 511 < 2 ^ 31
    → vma.sbrk + (2 * page_alignsz size + more) ≤ max_pgn * pagesz
    → vma.vm_end + (2 * page_alignsz size + more) ≤ max_pgn * pagesz
    → HasRoom vma size
has_room vma size more small top end_ =
    let (aligned, above, near) = page_alignsz_lem size (omega arith) in
    record {
      small = small;
      above_break = omega arith;
      above_end = omega arith;
      pages = omega (arith, aligned, addr_pgn_lem vma.vm_end (omega arith));
    }

abbrev with_area : (Ptr → Vma) → Ptr → Vma → Ptr → Vma
with_area vma p v q = if q == p then v else vma q

after-Heaps :
    (s : Spaces) (vma : Ptr → Vma) (p : Ptr) (c : Caller) (v : Vma)
    → Heaps s vma
    → IsHeap c v
    → Heaps (after_call s p c) (with_area vma p v)
after-Heaps s vma p c v heaps h q = elim (Bool-cases (q == p)) [
  | inl self ↦
      let same : (after_call s p c).mm q ≡ c.mm = rw self refl in
      let area : with_area vma p v q ≡ v = rw self refl in
      subst (IsHeap (caller_of (after_call s p c) q)) (sym area)
        (IsHeap-same h (ap (λ m. m.mmap) same ∙ h.one) (ap (λ m. m.symrgtbl) same))
  | inr other ↦
      let same : (after_call s p c).mm q ≡ s.mm q = rw other refl in
      let area : with_area vma p v q ≡ vma q = rw other refl in
      subst (IsHeap (caller_of (after_call s p c) q)) (sym area)
        (IsHeap-same (heaps q) (ap (λ m. m.mmap) same ∙ (heaps q).one) (ap (λ m. m.symrgtbl) same))
]

-- A call of `p` that moves break and end by at most `n`.
after-Fits :
    (vma : Ptr → Vma) (p : Ptr) (v : Vma) (n : ℕ) (ops : List Op)
    → v.sbrk ≤ (vma p).sbrk + n
    → v.vm_end ≤ (vma p).vm_end + n
    → ((q : Ptr)
        → ((vma q).sbrk + ((if q == p then n else 0) + cost q ops) ≤ max_pgn * pagesz)
          × ((vma q).vm_end + ((if q == p then n else 0) + cost q ops) ≤ max_pgn * pagesz))
    → Fits (with_area vma p v) ops
after-Fits vma p v n ops top end_ fits q = elim (Bool-cases (q == p)) [
  | inl self ↦
      let e : q ≡ p = (==_iff q p).0 self in
      let a : (vma q).sbrk ≡ (vma p).sbrk = ap (λ x. (vma x).sbrk) e in
      let b : (vma q).vm_end ≡ (vma p).vm_end = ap (λ x. (vma x).vm_end) e in
      let k : (if q == p then n else 0) ≡ n = rw self refl in
      rw self (omega (arith, top, (fits q).0, a, k), omega (arith, end_, (fits q).1, b, k))
  | inr other ↦ rw other (omega (arith, (fits q).0), omega (arith, (fits q).1))
]

-- Each process has one area, number 0, and a full symbol table, and the regions of its heap are apart:
-- no byte is in two symbols, in two free regions, or in one of each, and none is behind the break. The
-- frames of RAM are isolated: the free ones are distinct and have 13 bits, and two present pages, of one
-- process or of two, have two frames, none of which is free. Any processes allocate and free symbols of
-- the table in any order, also symbols that are in use or were freed before. If every size is above 0
-- and below 2 ^ 31 - 511, and twice the page-aligned sizes of each process fit behind its break and
-- end in the 4 MiB of the page table, then every call returns, whether or not there are frames for it,
-- and in the end all regions are apart and the frames isolated again.
pub exec-Heaps :
    (ops : List Op) (s : Spaces) (vma : Ptr → Vma)
    → Heaps s vma
    → Isolated s
    → InRange ops
    → Fits vma ops
    → (after : Spaces) × (vma' : Ptr → Vma) × (exec ops s ≡ some after)
      × Heaps after vma'
      × Isolated after
unfolding liballoc libfree
exec-Heaps [] s vma heaps is v fits = (s, vma, refl, heaps, is)
exec-Heaps (allocate p reg_index size junk ∷ ops) s vma heaps is (valid, pos, small, v) fits =
    let self : (if p == p then 2 * page_alignsz size else 0) ≡ 2 * page_alignsz size =
      rw (==_self p) refl in
    let room =
      has_room (vma p) size (cost p ops) small (omega (arith, (fits p).0, self))
        (omega (arith, (fits p).1, self)) in
    let (out, e, d) =
      alloc-Placed (caller_of s p) (vma p) reg_index size junk (heaps p) valid pos room in
    let (after, vma', e', h', is') =
      exec-Heaps ops (after_call s p out.caller) (with_area vma p d.vma)
        (after-Heaps s vma p out.caller d.vma heaps d.heap) (d.keeps.spaces s.mm p refl is) v
        (after-Fits vma p d.vma (2 * page_alignsz size) ops d.break_bound
          (omega (arith, d.end_bound)) fits) in
    (after, vma', rw (e, e') refl, h', is')
exec-Heaps (release p reg_index ∷ ops) s vma heaps is (valid, v) fits =
    let (r, vma1, e, h1, same_break, same_end, keeps) =
      free-total (caller_of s p) (vma p) 0 reg_index (heaps p) valid in
    let (after, vma', e', h', is') =
      exec-Heaps ops (after_call s p r.caller) (with_area vma p vma1)
        (after-Heaps s vma p r.caller vma1 heaps h1) (keeps.spaces s.mm p refl is) v
        (after-Fits vma p vma1 0 ops (omega (arith, same_break)) (omega (arith, same_end))
          λ q. (ground (arith, (fits q).0), ground (arith, (fits q).1))) in
    (after, vma', rw (e, e') refl, h', is')
