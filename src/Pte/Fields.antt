-- ===== src/Pte/Fields.antt =====
-- What the entry setters of mm.c do to each field of an entry, and how an address splits.
use simple_32bit_os.Base.{
  ℕ, ◌+◌, ◌-◌, ◌*◌, ◌/◌, ◌%◌, ◌^◌, ◌<◌, ◌≤◌, ◌≡◌, ◌∙◌, arith, minus_one, true, ◌==◌, if◌then◌else◌,
}
use simple_32bit_os.Pte.{
  present_mask, swapped_mask, dirty_mask, fpn_mask, swptyp_mask, swpoff_mask, set_bit, clr_bit,
  set_val, page_present, pte_fpn, pte_swp, addr_pgn, addr_offst, pte_set_swap, pte_set_fpn, Init,
  init_pte, page_alignsz, max_pgn, pagesz,
}
use simple_32bit_os.Pte.Arithmetic.{
  set_present, set_swapped, clr_swapped, clr_dirty, set_val-fpn, set_val-swptyp, set_val-swpoff,
  present_test, pte_fpn_lem, pte_swp_lem, addr_pgn_lem, addr_offst_lem,
}

-- Bit `i` of an entry, and the bits from `i` on up to `j`.
abbrev pub bit_at : ℕ → ℕ → ℕ
bit_at i pte = pte / 2 ^ i % 2

abbrev pub bits : ℕ → ℕ → ℕ → ℕ
bits i j pte = pte / 2 ^ i % 2 ^ (j - i)

pub page_present_iff : (v : ℕ) → v < 2 ^ 32 → page_present v ≡ (bit_at 31 v == 1)
unfolding page_present
page_present_iff v h = ground (arith, present_test v h)

abbrev pub init_result : ℕ → ℕ → Init
init_result r e = record { result = r; pte = e }

-- The two bits that every setter writes first.
online : (v : ℕ) → v < 2 ^ 32 → clr_bit (set_bit v present_mask) swapped_mask ≡ 2 ^ 31 + v % 2 ^ 30
online v h = rw (set_present v h) (clr_swapped (2 ^ 31 + v % 2 ^ 31) (omega arith) ∙ omega arith)

in_swap :
    (v : ℕ)
    → v < 2 ^ 32
    → set_bit (set_bit v present_mask) swapped_mask ≡ 2 ^ 31 + 2 ^ 30 + v % 2 ^ 30
in_swap v h = rw (set_present v h) (set_swapped (2 ^ 31 + v % 2 ^ 31) (omega arith) ∙ omega arith)

-- The swap type and offset, written into a word.
swap_fields :
    (v swptyp swpoff : ℕ)
    → v < 2 ^ 32
    → set_val (set_val v swptyp swptyp_mask 0) swpoff swpoff_mask 5
      ≡ v / 2 ^ 26 * 2 ^ 26 + swpoff % 2 ^ 21 * 2 ^ 5 + swptyp % 2 ^ 5
swap_fields v swptyp swpoff h =
    rw (set_val-swptyp v h swptyp)
      (set_val-swpoff (v / 2 ^ 5 * 2 ^ 5 + swptyp % 2 ^ 5) (omega arith) swpoff ∙ omega arith)

pub pte_set_fpn-value :
    (v fpn : ℕ)
    → v < 2 ^ 32
    → pte_set_fpn v fpn ≡ 2 ^ 31 + v % 2 ^ 30 / 2 ^ 13 * 2 ^ 13 + fpn % 2 ^ 13
unfolding pte_set_fpn
pte_set_fpn-value v fpn h =
    rw (online v h) (set_val-fpn (2 ^ 31 + v % 2 ^ 30) (omega arith) fpn ∙ omega arith)

pub pte_set_swap-value :
    (v swptyp swpoff : ℕ)
    → v < 2 ^ 32
    → pte_set_swap v swptyp swpoff
      ≡ 2 ^ 31 + 2 ^ 30 + v % 2 ^ 30 / 2 ^ 26 * 2 ^ 26 + swpoff % 2 ^ 21 * 2 ^ 5 + swptyp % 2 ^ 5
unfolding pte_set_swap
pte_set_swap-value v swptyp swpoff h =
    rw (in_swap v h)
      (swap_fields (2 ^ 31 + 2 ^ 30 + v % 2 ^ 30) swptyp swpoff (omega arith) ∙ omega arith)

-- On a word, `pte_set_fpn` makes an entry that is present and not swapped and names the frame,
-- modulo its 13 bits; the bits 13 to 29, which hold the user number and the dirty bit, stay as they
-- were.
pub pte_set_fpn_fields :
    (v fpn : ℕ)
    → v < 2 ^ 32
    → let e = pte_set_fpn v fpn in
      (e < 2 ^ 32)
      × (page_present e ≡ true)
      × (bit_at 30 e ≡ 0)
      × (pte_fpn e ≡ fpn % 2 ^ 13)
      × (bits 13 30 e ≡ bits 13 30 v)
pte_set_fpn_fields v fpn h =
    let value = pte_set_fpn-value v fpn h in
    let small : pte_set_fpn v fpn < 2 ^ 32 = omega arith in
    (
      small,
      ground (arith, page_present_iff (pte_set_fpn v fpn)),
      omega arith,
      omega (arith, pte_fpn_lem (pte_set_fpn v fpn)),
      omega arith,
    )

-- On a word, `pte_set_swap` makes an entry that is swapped and names the swap type and offset,
-- modulo their 5 and 21 bits; the bits 26 to 29 stay. The entry is present too, and read as a
-- present one it names the frame that the low 13 bits spell: the swap type plus 32 times the
-- offset, modulo 8192.
pub pte_set_swap_fields :
    (v swptyp swpoff : ℕ)
    → v < 2 ^ 32
    → let e = pte_set_swap v swptyp swpoff in
      (e < 2 ^ 32)
      × (bit_at 30 e ≡ 1)
      × (pte_swp e ≡ swpoff % 2 ^ 21)
      × (bits 0 5 e ≡ swptyp % 2 ^ 5)
      × (bits 26 30 e ≡ bits 26 30 v)
      × (page_present e ≡ true)
      × (pte_fpn e ≡ (swptyp % 2 ^ 5 + 32 * swpoff) % 2 ^ 13)
pte_set_swap_fields v swptyp swpoff h =
    let value = pte_set_swap-value v swptyp swpoff h in
    let small : pte_set_swap v swptyp swpoff < 2 ^ 32 = omega arith in
    (
      small,
      omega arith,
      omega (arith, pte_swp_lem (pte_set_swap v swptyp swpoff)),
      omega arith,
      omega arith,
      ground (arith, page_present_iff (pte_set_swap v swptyp swpoff)),
      omega (arith, pte_fpn_lem (pte_set_swap v swptyp swpoff)),
    )

-- An entry of a page in memory, and one of a page in swap, as `init_pte` leaves them: bit 29 and the
-- bits 13 to 27 (26 and 27 for a page in swap) of the old entry stay, and the dirty bit 28 is clear.
abbrev pub online_entry : ℕ → ℕ → ℕ
online_entry v fpn = 2 ^ 31 + bit_at 29 v * 2 ^ 29 + bits 13 28 v * 2 ^ 13 + fpn % 2 ^ 13

abbrev pub swapped_entry : ℕ → ℕ → ℕ → ℕ
swapped_entry v swptyp swpoff =
    2 ^ 31
    + 2 ^ 30
    + bit_at 29 v * 2 ^ 29
    + bits 26 28 v * 2 ^ 26
    + swpoff % 2 ^ 21 * 2 ^ 5
    + swptyp % 2 ^ 5

init_online :
    (v fpn : ℕ)
    → v < 2 ^ 32
    → set_val (clr_bit (clr_bit (set_bit v present_mask) swapped_mask) dirty_mask) fpn fpn_mask 0
      ≡ online_entry v fpn
init_online v fpn h =
    rw (online v h, clr_dirty (2 ^ 31 + v % 2 ^ 30) (omega arith))
      (set_val-fpn ((2 ^ 31 + v % 2 ^ 30) / 2 ^ 29 * 2 ^ 29 + (2 ^ 31 + v % 2 ^ 30) % 2 ^ 28)
          (omega arith) fpn
        ∙ omega arith)

init_swapped :
    (v swptyp swpoff : ℕ)
    → v < 2 ^ 32
    → set_val
        (set_val
          (clr_bit (set_bit (set_bit v present_mask) swapped_mask) dirty_mask)
          swptyp
          swptyp_mask
          0)
        swpoff
        swpoff_mask
        5
      ≡ swapped_entry v swptyp swpoff
init_swapped v swptyp swpoff h =
    rw (in_swap v h, clr_dirty (2 ^ 31 + 2 ^ 30 + v % 2 ^ 30) (omega arith))
      (swap_fields
          ((2 ^ 31 + 2 ^ 30 + v % 2 ^ 30) / 2 ^ 29 * 2 ^ 29
            + (2 ^ 31 + 2 ^ 30 + v % 2 ^ 30) % 2 ^ 28)
          swptyp swpoff (omega arith)
        ∙ omega arith)

-- On a word, `init_pte` leaves an entry alone that is not to be present, and refuses frame 0;
-- otherwise it writes the fields of a page in memory or of one in swap, and clears the dirty bit.
-- The argument `drt` has no effect.
pub init_pte_lem :
    (v pre fpn drt swp swptyp swpoff : ℕ)
    → v < 2 ^ 32
    → init_pte v pre fpn drt swp swptyp swpoff ≡ (
        if pre == 0
        then init_result 0 v
        else if swp == 0
        then (if fpn == 0 then init_result minus_one v else init_result 0 (online_entry v fpn))
        else init_result 0 (swapped_entry v swptyp swpoff))
unfolding init_pte
init_pte_lem v pre fpn drt swp swptyp swpoff h =
    rw (init_online v fpn h, init_swapped v swptyp swpoff h)

-- An address that is a word is its page number and its offset, as far as the 22 bits of the bus go,
-- and the page number is in range of the page table.
pub addr_split :
    (x : ℕ)
    → x < 2 ^ 32
    → (addr_pgn x * pagesz + addr_offst x ≡ x % 2 ^ 22)
      × (addr_pgn x < max_pgn)
      × (addr_offst x < pagesz)
addr_split x h =
    let pgn = addr_pgn_lem x h in
    let off = addr_offst_lem x h in (omega arith, omega arith, omega arith)

-- The page size divides an aligned size, which is the smallest such number that is not below the
-- size, for every size that the rounding does not carry past `INT_MAX`.
pub page_alignsz_lem :
    (sz : ℕ)
    → sz + 255 < 2 ^ 31
    → (page_alignsz sz % pagesz ≡ 0) × (sz ≤ page_alignsz sz) × (page_alignsz sz < sz + pagesz)
unfolding page_alignsz
page_alignsz_lem sz h = ground arith

pub page_alignsz-page_alignsz :
    (sz : ℕ) → sz + 511 < 2 ^ 31 → page_alignsz (page_alignsz sz) ≡ page_alignsz sz
page_alignsz-page_alignsz sz h =
    let once = page_alignsz_lem sz (omega arith) in
    let twice = page_alignsz_lem (page_alignsz sz) (omega arith) in omega arith
