-- ===== src/Pte/Arithmetic.antt =====
-- The macros of mm.h on a 32-bit word, as division and remainder.
use simple_32bit_os.Base.{
  ℕ, ◌+◌, ◌-◌, ◌*◌, ◌/◌, ◌%◌, ◌^◌, ◌<◌, ◌≡◌, refl, ◌∙◌, arith, bit_and, bit_or, u32, minus_one,
}
use simple_32bit_os.Bits.{and-field, and-clear, or-field, or-bit}
use simple_32bit_os.Pte.{
  present_mask, swapped_mask, dirty_mask, fpn_mask, swptyp_mask, swpoff_mask, set_bit, clr_bit,
  set_val, pte_fpn, pte_swp, addr_pgn, addr_offst, addr_lobit, pgn_mask, offst_mask, nbits, nbits32,
  nbits16, nbits8, nbits4, nbits2,
}

module _ (v : ℕ) (word : v < 2 ^ 32) where
  pub set_present : set_bit v present_mask ≡ 2 ^ 31 + v % 2 ^ 31
  set_present =
      or-bit v present_mask 31 0 (v / 2 ^ 31) (v % 2 ^ 31) (omega arith) (omega arith) (omega arith)
        refl
      ∙ omega arith

  pub set_swapped : set_bit v swapped_mask ≡ v / 2 ^ 31 * 2 ^ 31 + 2 ^ 30 + v % 2 ^ 30
  set_swapped =
      or-bit v swapped_mask 30 (v / 2 ^ 31) (v / 2 ^ 30 % 2) (v % 2 ^ 30) (omega arith)
        (omega arith) (omega arith) refl
      ∙ omega arith

  pub clr_swapped : clr_bit v swapped_mask ≡ v / 2 ^ 31 * 2 ^ 31 + v % 2 ^ 30
  clr_swapped =
      and-clear v (minus_one - swapped_mask) 30 1 (v / 2 ^ 31) (v / 2 ^ 30 % 2) (v % 2 ^ 30)
        (omega arith) (omega arith) (omega arith) 1 (omega arith) refl
      ∙ omega arith

  pub clr_dirty : clr_bit v dirty_mask ≡ v / 2 ^ 29 * 2 ^ 29 + v % 2 ^ 28
  clr_dirty =
      and-clear v (minus_one - dirty_mask) 28 1 (v / 2 ^ 29) (v / 2 ^ 28 % 2) (v % 2 ^ 28)
        (omega arith) (omega arith) (omega arith) 3 (omega arith) refl
      ∙ omega arith

  -- The field of `mask`, at numerals `k` and `w`, is replaced by the low bits of `value`.
  pub set_val-fpn : (value : ℕ) → set_val v value fpn_mask 0 ≡ v / 2 ^ 13 * 2 ^ 13 + value % 2 ^ 13
  set_val-fpn value = rw (cleared, fresh) (joined ∙ omega arith)
    where
      cleared : bit_and v (minus_one - fpn_mask) ≡ v / 2 ^ 13 * 2 ^ 13 * 2 ^ 0 + 0
      cleared =
          and-clear v (minus_one - fpn_mask) 0 13 (v / 2 ^ 13) (v % 2 ^ 13) 0 (omega arith)
            (omega arith) (omega arith) 19 (omega arith) refl

      fresh : bit_and (u32 (value * 2 ^ 0)) fpn_mask ≡ value % 2 ^ 13 * 2 ^ 0
      fresh =
          and-field (u32 (value * 2 ^ 0)) fpn_mask 0 13 (value % 2 ^ 32 / 2 ^ 13) (value % 2 ^ 13) 0
            (omega arith) (omega arith) (omega arith) refl

      joined :
          bit_or (v / 2 ^ 13 * 2 ^ 13 * 2 ^ 0 + 0) (value % 2 ^ 13 * 2 ^ 0)
          ≡ (v / 2 ^ 13 * 2 ^ 13 + value % 2 ^ 13) * 2 ^ 0 + 0
      joined =
          or-field _ _ 0 13 (v / 2 ^ 13) 0 0 (omega arith) (omega arith) (omega arith)
            (value % 2 ^ 13) (omega arith) refl (omega arith)

  pub set_val-swptyp :
      (value : ℕ) → set_val v value swptyp_mask 0 ≡ v / 2 ^ 5 * 2 ^ 5 + value % 2 ^ 5
  set_val-swptyp value = rw (cleared, fresh) (joined ∙ omega arith)
    where
      cleared : bit_and v (minus_one - swptyp_mask) ≡ v / 2 ^ 5 * 2 ^ 5 * 2 ^ 0 + 0
      cleared =
          and-clear v (minus_one - swptyp_mask) 0 5 (v / 2 ^ 5) (v % 2 ^ 5) 0 (omega arith)
            (omega arith) (omega arith) 27 (omega arith) refl

      fresh : bit_and (u32 (value * 2 ^ 0)) swptyp_mask ≡ value % 2 ^ 5 * 2 ^ 0
      fresh =
          and-field (u32 (value * 2 ^ 0)) swptyp_mask 0 5 (value % 2 ^ 32 / 2 ^ 5) (value % 2 ^ 5) 0
            (omega arith) (omega arith) (omega arith) refl

      joined :
          bit_or (v / 2 ^ 5 * 2 ^ 5 * 2 ^ 0 + 0) (value % 2 ^ 5 * 2 ^ 0)
          ≡ (v / 2 ^ 5 * 2 ^ 5 + value % 2 ^ 5) * 2 ^ 0 + 0
      joined =
          or-field _ _ 0 5 (v / 2 ^ 5) 0 0 (omega arith) (omega arith) (omega arith) (value % 2 ^ 5)
            (omega arith) refl (omega arith)

  pub set_val-swpoff :
      (value : ℕ)
      → set_val v value swpoff_mask 5 ≡ v / 2 ^ 26 * 2 ^ 26 + value % 2 ^ 21 * 2 ^ 5 + v % 2 ^ 5
  set_val-swpoff value = rw (cleared, fresh) (joined ∙ omega arith)
    where
      cleared : bit_and v (minus_one - swpoff_mask) ≡ v / 2 ^ 26 * 2 ^ 21 * 2 ^ 5 + v % 2 ^ 5
      cleared =
          and-clear v (minus_one - swpoff_mask) 5 21 (v / 2 ^ 26) (v / 2 ^ 5 % 2 ^ 21) (v % 2 ^ 5)
            (omega arith) (omega arith) (omega arith) 6 (omega arith) refl

      fresh : bit_and (u32 (value * 2 ^ 5)) swpoff_mask ≡ value % 2 ^ 21 * 2 ^ 5
      fresh =
          and-field (u32 (value * 2 ^ 5)) swpoff_mask 5 21 (value % 2 ^ 27 / 2 ^ 21)
            (value % 2 ^ 21) 0 (omega arith) (omega arith) (omega arith) refl

      joined :
          bit_or (v / 2 ^ 26 * 2 ^ 21 * 2 ^ 5 + v % 2 ^ 5) (value % 2 ^ 21 * 2 ^ 5)
          ≡ (v / 2 ^ 26 * 2 ^ 21 + value % 2 ^ 21) * 2 ^ 5 + v % 2 ^ 5
      joined =
          or-field _ _ 5 21 (v / 2 ^ 26) 0 (v % 2 ^ 5) (omega arith) (omega arith) (omega arith)
            (value % 2 ^ 21) (omega arith) refl (omega arith)

  pub present_test : bit_and v present_mask ≡ v / 2 ^ 31 * 2 ^ 31
  present_test =
      and-field v present_mask 31 1 0 (v / 2 ^ 31) (v % 2 ^ 31) (omega arith) (omega arith)
        (omega arith) refl

  pub pte_fpn_lem : pte_fpn v ≡ v % 2 ^ 13
  unfolding pte_fpn
  pte_fpn_lem =
      let field =
        and-field v fpn_mask 0 13 (v / 2 ^ 13) (v % 2 ^ 13) 0 (omega arith) (omega arith)
          (omega arith) refl in
      rw field (omega arith)

  pub pte_swp_lem : pte_swp v ≡ v / 2 ^ 5 % 2 ^ 21
  unfolding pte_swp
  pte_swp_lem =
      let field =
        and-field v swpoff_mask 5 21 (v / 2 ^ 26) (v / 2 ^ 5 % 2 ^ 21) (v % 2 ^ 5) (omega arith)
          (omega arith) (omega arith) refl in
      rw field (omega arith)

  pub addr_pgn_lem : addr_pgn v ≡ v / 2 ^ 8 % 2 ^ 14
  unfolding addr_pgn
  addr_pgn_lem =
      let field =
        and-field v pgn_mask 8 14 (v / 2 ^ 22) (v / 2 ^ 8 % 2 ^ 14) (v % 2 ^ 8) (omega arith)
          (omega arith) (omega arith) refl in
      rw field (omega arith)

  pub addr_offst_lem : addr_offst v ≡ v % 2 ^ 8
  unfolding addr_offst
  addr_offst_lem =
      let field =
        and-field v offst_mask 0 8 (v / 2 ^ 8) (v % 2 ^ 8) 0 (omega arith) (omega arith)
          (omega arith) refl in
      rw field (omega arith)

pub addr_lobit_lem : addr_lobit ≡ 8
unfolding addr_lobit nbits nbits32 nbits16 nbits8 nbits4 nbits2
addr_lobit_lem = refl
