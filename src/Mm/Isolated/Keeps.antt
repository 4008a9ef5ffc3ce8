-- ===== src/Mm/Isolated/Keeps.antt =====
-- What a call of one process must do to the spaces of all, and calls one behind the other.
use mathlib.Core.List.{reverse}
use simple_32bit_os.Base.{
  ℕ, ◌≤◌, ◌≡◌, inl, inr, refl, sym, ap, subst, fun_ext, ◌∙◌, List, [], arith, length, take, drop,
  ◌==◌, ==_iff, ==_self, Bool-cases,
}
use simple_32bit_os.Pte.{pte_fpn, page_present}
use simple_32bit_os.Memory.{Mm, Caller}
use simple_32bit_os.Queue.{Ptr}
use simple_32bit_os.Mm.Alloc.{with_free}
use simple_32bit_os.Mm.Map.{Maps}
use simple_32bit_os.Mm.Isolated.{IsIsolated, with_space, Maps-IsIsolated}

-- Whatever the other spaces are, the frames stay isolated when the process of the first state gets the
-- second one.
pub record Keeps (c c' : Caller) : Type 0 where
  pub spaces :
      (mm : Ptr → Mm) (p : Ptr)
      → mm p ≡ c.mm
      → IsIsolated mm c.mram.free_fp_list
      → IsIsolated (with_space mm p c'.mm) c'.mram.free_fp_list

-- The tables are all that counts.
IsIsolated-tables :
    {free : List ℕ} (mm mm' : Ptr → Mm)
    → ((p : Ptr) → (mm' p).pgd ≡ (mm p).pgd)
    → IsIsolated mm free
    → IsIsolated mm' free
IsIsolated-tables {free} mm mm' same is =
    let back = λ (p : Ptr) (i : ℕ). ap (λ pgd. pgd i) (same p) in
    record {
      once = is.once;
      small = is.small;
      words = λ p i. rw (back p i) (is.words p i);
      apart = λ p q i j (lt, v) (lt', v') e.
          is.apart p q i j (lt, ap page_present (sym (back p i)) ∙ v)
            (lt', ap page_present (sym (back q j)) ∙ v')
            (ap pte_fpn (sym (back p i)) ∙ e ∙ ap pte_fpn (back q j));
      taken =
          λ p i (lt, v). rw (back p i) (is.taken p i (lt, ap page_present (sym (back p i)) ∙ v));
    }

with_space-pgd :
    (mm : Ptr → Mm) (p : Ptr) (m : Mm)
    → m.pgd ≡ (mm p).pgd
    → (q : Ptr) → (with_space mm p m q).pgd ≡ (mm q).pgd
with_space-pgd mm p m e q = elim (Bool-cases (q == p)) [
  | inl self ↦ rw self (subst (λ x. m.pgd ≡ (mm x).pgd) (sym ((==_iff q p).0 self)) e)
  | inr other ↦ rw other refl
]

nothing_free : (mm : Ptr → Mm) (free : List ℕ) → IsIsolated mm free → IsIsolated mm []
nothing_free mm free is = record {
  once = λ f. omega arith;
  small = λ f h. absurd (omega arith);
  words = is.words;
  apart = is.apart;
  taken = λ p i v. refl;
}

pub Keeps-same : {c c' : Caller} → c'.mm.pgd ≡ c.mm.pgd → c'.mram ≡ c.mram → Keeps c c'
Keeps-same {c} {c'} table ram = record {
  spaces = λ mm p e is.
      let with_ram : IsIsolated mm c'.mram.free_fp_list =
        subst (λ m. IsIsolated mm m.free_fp_list) (sym ram) is in
      IsIsolated-tables mm (with_space mm p c'.mm)
        (with_space-pgd mm p c'.mm (table ∙ ap (λ m. m.pgd) (sym e))) with_ram;
}

-- No frame is free any more, and no page was mapped.
pub Keeps-none : {c c' : Caller} → c'.mm.pgd ≡ c.mm.pgd → c'.mram.free_fp_list ≡ [] → Keeps c c'
Keeps-none {c} {c'} table ram = record {
  spaces = λ mm p e is.
      subst (λ free. IsIsolated (with_space mm p c'.mm) free) (sym ram)
        (IsIsolated-tables mm (with_space mm p c'.mm)
          (with_space-pgd mm p c'.mm (table ∙ ap (λ m. m.pgd) (sym e)))
          (nothing_free mm c.mram.free_fp_list is));
}

pub Keeps-Maps :
    (c : Caller) (mm' : Mm) (first n : ℕ)
    → n ≤ length c.mram.free_fp_list
    → Maps c.mm first (reverse (take n c.mram.free_fp_list)) mm'
    → Keeps c (record c { mm = mm'; mram = with_free c.mram (drop n c.mram.free_fp_list) })
Keeps-Maps c mm' first n enough maps = record {
  spaces = λ mm p e is.
      Maps-IsIsolated mm p mm' first n c.mram.free_fp_list is enough
        (subst (λ m. Maps m first (reverse (take n c.mram.free_fp_list)) mm') (sym e) maps);
}

with_space-with_space :
    (mm : Ptr → Mm) (p : Ptr) (m m' : Mm) (q : Ptr)
    → with_space (with_space mm p m) p m' q ≡ with_space mm p m' q
with_space-with_space mm p m m' q = elim (Bool-cases (q == p)) [
  | inl self ↦ rw self refl
  | inr other ↦ rw other refl
]

pub Keeps-trans : {a b c : Caller} → Keeps a b → Keeps b c → Keeps a c
Keeps-trans {a} {b} {c} first second = record {
  spaces = λ mm p e is.
      let middle = first.spaces mm p e is in
      let self : with_space mm p b.mm p ≡ b.mm = rw (==_self p) refl in
      subst (λ spaces. IsIsolated spaces c.mram.free_fp_list)
        (fun_ext (with_space-with_space mm p b.mm c.mm))
        (second.spaces (with_space mm p b.mm) p self middle);
}
