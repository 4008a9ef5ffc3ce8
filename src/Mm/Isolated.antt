-- ===== src/Mm/Isolated.antt =====
-- The frames of RAM: no two pages share one, also of two processes.
pub mod Keeps
pub mod Requests
pub mod Tests
use mathlib.Core.List.{reverse, reverse_aux}
use simple_32bit_os.Base.{
  ℕ, zero, suc, ◌+◌, ◌-◌, ◌*◌, ◌/◌, ◌%◌, ◌<◌, ◌≤◌, ◌^◌, ◌≡◌, ◌⊎◌, inl, inr, refl, sym, ap, subst,
  ◌∙◌, some, List, [], ◌∷◌, arith, length, take, drop, ltb, leb, ◌&&◌, if◌then◌else◌, get_or, true,
  false, ◌==◌, Bool-cases, count, count-take, count-reverse, count-get_or, get_or-injective,
  length-take, ==_iff, ==_self, ◌≢◌, minus_one,
}
use simple_32bit_os.Pte.{max_pgn, pte_set_fpn, pte_fpn, page_present, addr_pgn}
use simple_32bit_os.Pte.Fields.{pte_set_fpn_fields}
use simple_32bit_os.Memory.{Mm, Caller}
use simple_32bit_os.Queue.{Ptr}
use simple_32bit_os.Mm.{vm_map_ram, Mapped}
use simple_32bit_os.Mm.Map.{
  length-reverse_aux, Maps, mapped_result, vm_map_ram-Maps, vm_map_ram-short,
}
use simple_32bit_os.Mm.Alloc.{with_free}

-- Page `i` of process `p` is present.
abbrev pub Present : (mm : Ptr → Mm) → Ptr → ℕ → Type 0
Present mm p i = (i < max_pgn) × (page_present ((mm p).pgd i) ≡ true)

abbrev pub frame_at : (mm : Ptr → Mm) → Ptr → ℕ → ℕ
frame_at mm p i = pte_fpn ((mm p).pgd i)

-- The free frames are distinct and have 13 bits; two present pages have two frames, whichever processes
-- they belong to; and no frame of a present page is free.
pub record IsIsolated (mm : Ptr → Mm) (free : List ℕ) : Type 0 where
  pub once : (f : ℕ) → count f free ≤ 1
  pub small : (f : ℕ) → 1 ≤ count f free → f < 2 ^ 13
  pub words : (p : Ptr) (i : ℕ) → (mm p).pgd i < 2 ^ 32
  pub apart :
      (p q : Ptr) (i j : ℕ)
      → Present mm p i
      → Present mm q j
      → frame_at mm p i ≡ frame_at mm q j
      → (p ≡ q) × (i ≡ j)
  pub taken : (p : Ptr) (i : ℕ) → Present mm p i → count (frame_at mm p i) free ≡ 0

abbrev pub with_space : (Ptr → Mm) → Ptr → Mm → Ptr → Mm
with_space mm p m q = if q == p then m else mm q

module _ (mm : Ptr → Mm) (p : Ptr) (mm' : Mm) (first n : ℕ) (free : List ℕ)
    (is : IsIsolated mm free) (enough : n ≤ length free)
    (maps : Maps (mm p) first (reverse (take n free)) mm') where
  abbrev frames : List ℕ
  frames = reverse (take n free)

  abbrev after : Ptr → Mm
  after = with_space mm p mm'

  after_self : after p ≡ mm'
  after_self = rw (==_self p) refl

  after_other : (q : Ptr) → (q == p) ≡ false → after q ≡ mm q
  after_other q e = rw e refl

  length-frames : length frames ≡ n
  length-frames = length-reverse_aux (take n free) [] ∙ omega (arith, length-take n free enough)

  -- What the frame of a present page is now: one of the new ones, or the one it was.
  data Frame (q : Ptr) (i : ℕ) : Type 0 where
    new :
        (k : ℕ) → k < n → i ≡ first + k → q ≡ p → frame_at after q i ≡ get_or frames k 0 → Frame q i
    old : Present mm q i → frame_at after q i ≡ frame_at mm q i → Frame q i

  free_once : (f : ℕ) → count f frames + count f (drop n free) ≡ count f free
  free_once f = omega (arith, count-take f n free, count-reverse f (take n free))

  frame_small : (k : ℕ) → k < n → get_or frames k 0 < 2 ^ 13
  frame_small k lt =
      let f = get_or frames k 0 in
      is.small f (omega (arith, free_once f, count-get_or frames k (omega (arith, length-frames))))

  own_entry :
      (i : ℕ)
      → mm'.pgd i ≡ (
          if leb first i && ltb i (first + n)
          then pte_set_fpn ((mm p).pgd i) (get_or frames (i - first) 0)
          else (mm p).pgd i)
  own_entry i =
      subst
        (λ m. mm'.pgd i ≡ (
          if leb first i && ltb i (first + m)
          then pte_set_fpn ((mm p).pgd i) (get_or frames (i - first) 0)
          else (mm p).pgd i))
        length-frames (maps.entries i)

  own_frame : (i : ℕ) → i < max_pgn → page_present (mm'.pgd i) ≡ true → Frame p i
  own_frame i lt present = elim (Bool-cases (leb first i && ltb i (first + n))) [
    | inl inside ↦
        let k = i - first in
        let below : k < n = ground arith in
        let entry : mm'.pgd i ≡ pte_set_fpn ((mm p).pgd i) (get_or frames k 0) =
          own_entry i ∙ rw inside refl in
        let fields = pte_set_fpn_fields ((mm p).pgd i) (get_or frames k 0) (is.words p i) in
        let fits : get_or frames k 0 % 2 ^ 13 ≡ get_or frames k 0 =
          omega (arith, frame_small k below) in
        Frame.new k below (ground arith) refl
          (ap (λ m. pte_fpn (m.pgd i)) after_self ∙ ap pte_fpn entry ∙ fields.3 ∙ fits)
    | inr outside ↦
        let entry : mm'.pgd i ≡ (mm p).pgd i = own_entry i ∙ rw outside refl in
        Frame.old (lt, ap page_present (sym entry) ∙ present)
          (ap (λ m. pte_fpn (m.pgd i)) after_self ∙ ap pte_fpn entry)
  ]

  frame_of : (q : Ptr) (i : ℕ) → Present after q i → Frame q i
  frame_of q i (lt, present) = elim (Bool-cases (q == p)) [
    | inl self ↦
        let e : q ≡ p = (==_iff q p).0 self in
        subst (λ x. Frame x i) (sym e)
          (own_frame i lt (
            ap (λ m. page_present (m.pgd i)) (sym after_self)
            ∙ subst (λ x. page_present ((after x).pgd i) ≡ true) e present))
    | inr other ↦
        let same = after_other q other in
        Frame.old (lt, ap (λ m. page_present (m.pgd i)) (sym same) ∙ present)
          (ap (λ m. pte_fpn (m.pgd i)) same)
  ]

  own_word : (i : ℕ) → mm'.pgd i < 2 ^ 32
  own_word i = elim (Bool-cases (leb first i && ltb i (first + n))) [
    | inl inside ↦
        rw (own_entry i, inside)
          (pte_set_fpn_fields ((mm p).pgd i) (get_or frames (i - first) 0) (is.words p i)).0
    | inr outside ↦ rw (own_entry i, outside) (is.words p i)
  ]

  word : (q : Ptr) (i : ℕ) → (after q).pgd i < 2 ^ 32
  word q i = elim (Bool-cases (q == p)) [
    | inl self ↦ rw self (own_word i)
    | inr other ↦ rw other (is.words q i)
  ]

  -- A frame that was free is not that of a page that was present.
  new_old :
      (k : ℕ) → k < n → (q : Ptr) (i : ℕ) → Present mm q i → get_or frames k 0 ≢ frame_at mm q i
  new_old k lt q i present e =
      let f = get_or frames k 0 in
      let there = count-get_or frames k (omega (arith, length-frames)) in
      let gone : count f free ≡ 0 = rw e (is.taken q i present) in
      omega (arith, free_once f, there, gone)

  new_new : (k l : ℕ) → k < n → l < n → get_or frames k 0 ≡ get_or frames l 0 → k ≡ l
  new_new k l lt lt' e =
      let f = get_or frames k 0 in
      get_or-injective frames k l (omega (arith, length-frames)) (omega (arith, length-frames))
        (omega (arith, free_once f, is.once f)) e

  frames_apart :
      (q r : Ptr) (i j : ℕ)
      → Frame q i
      → Frame r j
      → frame_at after q i ≡ frame_at after r j
      → (q ≡ r) × (i ≡ j)
  frames_apart q r i j (Frame.new k lt a b c) (Frame.new l lt' a' b' c') e =
      let same = new_new k l lt lt' (sym c ∙ e ∙ c') in (b ∙ sym b', omega (arith, same))
  frames_apart q r i j (Frame.new k lt a b c) (Frame.old v c') e =
      absurd (new_old k lt r j v (sym c ∙ e ∙ c'))
  frames_apart q r i j (Frame.old v c) (Frame.new l lt' a' b' c') e =
      absurd (new_old l lt' q i v (sym c' ∙ sym e ∙ c))
  frames_apart q r i j (Frame.old v c) (Frame.old v' c') e = is.apart q r i j v v' (sym c ∙ e ∙ c')

  frames_taken : (q : Ptr) (i : ℕ) → Frame q i → count (frame_at after q i) (drop n free) ≡ 0
  frames_taken q i (Frame.new k lt a b c) =
      let f = get_or frames k 0 in
      let there = count-get_or frames k (omega (arith, length-frames)) in
      rw c (omega (arith, free_once f, is.once f, there))
  frames_taken q i (Frame.old v c) =
      rw c (omega (arith, free_once (frame_at mm q i), is.taken q i v))

  pub Maps-IsIsolated : IsIsolated (with_space mm p mm') (drop n free)
  Maps-IsIsolated = record {
    once = λ f. omega (arith, free_once f, is.once f);
    small = λ f h. is.small f (omega (arith, free_once f));
    words = word;
    apart = λ q r i j v v'. frames_apart q r i j (frame_of q i v) (frame_of r j v');
    taken = λ q i v. frames_taken q i (frame_of q i v);
  }
