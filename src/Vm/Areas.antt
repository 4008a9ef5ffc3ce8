-- ===== src/Vm/Areas.antt =====
-- Which area `get_vma_by_num` finds, what `validate_overlap_vm_area` tests, and what `inc_vma_limit`
-- does to the area that `init_mm` makes.
use simple_32bit_os.Base.{
  ℕ, ◌<◌, ◌≤◌, ◌^◌, ◌≡◌, ◌≢◌, ◌↔◌, ◌⊎◌, sym, inl, inr, refl, ◌∙◌, none, some, List, [], ◌∷◌, ◌==◌,
  arith, leb, if◌then◌else◌, All, true, false, minus_one, int_lt, Bool-cases,
}
use mathlib.Core.Bool.{false≢true}
use simple_32bit_os.Memory.{Vma, Mm, Caller}
use simple_32bit_os.Vm.{walk, get_vma_by_num, overlaps, validate_from, validate_overlap_vm_area}

-- In a space with one area, number 0, `get_vma_by_num` finds it for every number that is not above
-- 0, and for a larger number it reads behind the last area, through NULL.
pub get_vma_by_num-one :
    (mm : Mm) (vma : Vma) (vmaid : ℕ)
    → mm.mmap ≡ vma ∷ []
    → vma.vm_id ≡ 0
    → get_vma_by_num mm vmaid ≡ (if int_lt 0 vmaid then none else some (some 0))
unfolding get_vma_by_num walk
get_vma_by_num-one mm vma vmaid one id = elim (Bool-cases (int_lt 0 vmaid)) [
  | inl above ↦ rw (one, id, above)
  | inr below ↦ rw (one, id, below)
]

-- Two closed ranges of addresses have one in common.
abbrev pub Meets : Vma → (start end_ : ℕ) → Type 0
Meets vma start end_ = (x : ℕ) × (vma.vm_start ≤ x) × (x ≤ vma.vm_end) × (start ≤ x) × (x ≤ end_)

overlaps_iff :
    (vma : Vma) (s e : ℕ)
    → s ≤ e
    → e < 2 ^ 31
    → vma.vm_start ≤ vma.vm_end
    → (overlaps vma s e ≡ true) ↔ ((vma.vm_start ≤ e) × (s ≤ vma.vm_end))
unfolding overlaps
overlaps_iff vma s e h small order = ground arith

Meets-iff :
    (vma : Vma) (s e : ℕ)
    → s ≤ e
    → vma.vm_start ≤ vma.vm_end
    → Meets vma s e ↔ ((vma.vm_start ≤ e) × (s ≤ vma.vm_end))
Meets-iff vma s e h order = (
  λ (x, a, b, c, d). (omega arith, omega arith),
  λ (a, b). elim (Bool-cases (leb s vma.vm_start)) [
    | inl below ↦ (vma.vm_start, omega arith, order, ground arith, a)
    | inr above ↦ (s, ground arith, b, omega arith, h)
  ],
)

-- An area that is empty, or has no address of the range.
abbrev pub Clear : Vma → (start end_ : ℕ) → Type 0
Clear vma start end_ = (vma.vm_start ≡ vma.vm_end) ⊎ (¬ Meets vma start end_)

abbrev pub IsBounded : Vma → Type 0
IsBounded vma = vma.vm_start ≤ vma.vm_end

-- One round of the loop.
validate_from-empty :
    (vma : Vma) (rest : List Vma) (s e : ℕ)
    → vma.vm_start ≡ vma.vm_end
    → validate_from (vma ∷ rest) s e ≡ validate_from rest s e
unfolding validate_from
validate_from-empty vma rest s e h =
    let empty : (vma.vm_start == vma.vm_end) ≡ true = ground arith in rw empty

pub validate_from-tested :
    (vma : Vma) (rest : List Vma) (s e : ℕ)
    → vma.vm_start ≢ vma.vm_end
    → validate_from (vma ∷ rest) s e
      ≡ (if overlaps vma s e then minus_one else validate_from rest s e)
unfolding validate_from
validate_from-tested vma rest s e h =
    let full : (vma.vm_start == vma.vm_end) ≡ false = ground arith in rw full

validate_from_iff :
    (areas : List Vma) (s e : ℕ)
    → s ≤ e
    → e < 2 ^ 31
    → All IsBounded areas
    → (validate_from areas s e ≡ 0) ↔ All (λ vma. Clear vma s e) areas
validate_from_iff [] s e h small bounded = (λ _. tt, λ _. unfold validate_from in refl)
validate_from_iff (vma ∷ rest) s e h small bounded =
    let step = validate_from_iff rest s e h small bounded.1 in
    let meets = Meets-iff vma s e h bounded.0 in
    let test = overlaps_iff vma s e h small bounded.0 in
    elim (Bool-cases (vma.vm_start == vma.vm_end)) [
      | inl empty ↦
          let here : vma.vm_start ≡ vma.vm_end = ground arith in
          let skip = validate_from-empty vma rest s e here in
          (λ z. (inl here, step.0 (sym skip ∙ z)), λ c. skip ∙ step.1 c.1)
      | inr full ↦
          let here : vma.vm_start ≢ vma.vm_end = ground arith in
          let round = validate_from-tested vma rest s e here in
          elim (Bool-cases (overlaps vma s e)) [
            | inl over ↦ (
              λ z. absurd (ground (arith, round, over, z)),
              λ c. elim c.0 [
                | inl empty ↦ absurd (here empty)
                | inr apart ↦ absurd (apart (meets.1 (test.0 over)))
              ],
            )
            | inr free ↦
                let skip : validate_from (vma ∷ rest) s e ≡ validate_from rest s e =
                  round ∙ (rw free) in
                (
                  λ z. (
                    inr (λ m. absurd (false≢true (sym free ∙ test.1 (meets.0 m)))),
                    step.0 (sym skip ∙ z),
                  ),
                  λ c. skip ∙ step.1 c.1,
                )
          ]
    ]

-- For a range whose bounds are not negative and in order, in a space whose areas have theirs in
-- order, `validate_overlap_vm_area` returns 0 exactly when every area that is not empty has no
-- address in common with the range, the end of both included.
pub validate_overlap_vm_area_iff :
    (caller : Caller) (vmaid s e : ℕ)
    → s ≤ e
    → e < 2 ^ 31
    → All IsBounded caller.mm.mmap
    → (validate_overlap_vm_area caller vmaid s e ≡ 0) ↔ All (λ vma. Clear vma s e) caller.mm.mmap
unfolding validate_overlap_vm_area
validate_overlap_vm_area_iff caller vmaid s e h small bounded =
    validate_from_iff caller.mm.mmap s e h small bounded
