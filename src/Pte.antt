-- ===== src/Pte.antt =====
-- Page table entries and addresses: the macros of include/bitops.h and include/mm.h, and `init_pte`,
-- `pte_set_swap` and `pte_set_fpn` of src/mm.c. An entry is a `uint32_t`; an `int` argument is its
-- bit pattern.
pub mod Arithmetic
pub mod Fields
mod Tests
use simple_32bit_os.Base.{
  ℕ, ◌+◌, ◌-◌, ◌*◌, ◌/◌, ◌%◌, ◌^◌, Bool, not, bit_and, bit_or, ◌==◌, if◌then◌else◌, u32, minus_one,
  int_add, int_sub, int_mul, int_div,
}

-- BIT(nr) and GENMASK(h, l)
abbrev pub bit : ℕ → ℕ
bit nr = 2 ^ nr

abbrev pub genmask : ℕ → ℕ → ℕ
genmask h l = bit_and (u32 (minus_one * 2 ^ l)) (minus_one / 2 ^ (32 - h - 1))

-- NBITS2 up to NBITS32, and NBITS
nbits2 : ℕ → ℕ
nbits2 n = if bit_and n 2 == 0 then 0 else 1

nbits4 : ℕ → ℕ
unfolding nbits2
nbits4 n = if bit_and n 0xC == 0 then nbits2 n else 2 + nbits2 (n / 2 ^ 2)

nbits8 : ℕ → ℕ
unfolding nbits4
nbits8 n = if bit_and n 0xF0 == 0 then nbits4 n else 4 + nbits4 (n / 2 ^ 4)

nbits16 : ℕ → ℕ
unfolding nbits8
nbits16 n = if bit_and n 0xFF00 == 0 then nbits8 n else 8 + nbits8 (n / 2 ^ 8)

nbits32 : ℕ → ℕ
unfolding nbits16
nbits32 n = if bit_and n 0xFFFF0000 == 0 then nbits16 n else 16 + nbits16 (n / 2 ^ 16)

pub nbits : ℕ → ℕ
unfolding nbits32
nbits n = if n == 0 then 0 else nbits32 n

-- PAGING_PAGESZ, PAGING_CPU_BUS_WIDTH, and PAGING_MAX_PGN = DIV_ROUND_UP(BIT(22), PAGING_PAGESZ)
abbrev pub pagesz : ℕ
pagesz = 256

abbrev pub cpu_bus_width : ℕ
cpu_bus_width = 22

abbrev pub max_pgn : ℕ
max_pgn = (bit cpu_bus_width + pagesz - 1) / pagesz

-- PAGING_PAGE_ALIGNSZ on an `int`
unfoldable pub page_alignsz : ℕ → ℕ
page_alignsz sz = int_mul (int_div (int_sub (int_add sz pagesz) 1) pagesz) pagesz

abbrev pub present_mask : ℕ
present_mask = bit 31

abbrev pub swapped_mask : ℕ
swapped_mask = bit 30

abbrev pub dirty_mask : ℕ
dirty_mask = bit 28

abbrev pub fpn_mask : ℕ
fpn_mask = genmask 12 0

abbrev pub swptyp_mask : ℕ
swptyp_mask = genmask 4 0

abbrev pub swpoff_mask : ℕ
swpoff_mask = genmask 25 5

-- PAGING_ADDR_PGN_LOBIT and PAGING_ADDR_FPN_LOBIT are both NBITS(PAGING_PAGESZ).
pub addr_lobit : ℕ
unfolding nbits
addr_lobit = nbits pagesz

pub offst_mask : ℕ
unfolding addr_lobit
offst_mask = genmask (addr_lobit - 1) 0

pub pgn_mask : ℕ
unfolding addr_lobit
pgn_mask = genmask (cpu_bus_width - 1) addr_lobit

-- SETBIT, CLRBIT, SETVAL and GETVAL; `~mask` on 32 bits.
abbrev pub set_bit : ℕ → ℕ → ℕ
set_bit v mask = bit_or v mask

abbrev pub clr_bit : ℕ → ℕ → ℕ
clr_bit v mask = bit_and v (minus_one - mask)

abbrev pub set_val : ℕ → ℕ → ℕ → ℕ → ℕ
set_val v value mask offst =
    bit_or (bit_and v (minus_one - mask)) (bit_and (u32 (value * 2 ^ offst)) mask)

abbrev pub get_val : ℕ → ℕ → ℕ → ℕ
get_val v mask offst = bit_and v mask / 2 ^ offst

-- PAGING_PAGE_PRESENT, as a test; PAGING_FPN (the text of PAGING_PTE_FPN is the same); PAGING_PTE_SWP
unfoldable pub page_present : ℕ → Bool
page_present pte = not (bit_and pte present_mask == 0)

unfoldable pub pte_fpn : ℕ → ℕ
pte_fpn pte = get_val pte fpn_mask 0

unfoldable pub pte_swp : ℕ → ℕ
pte_swp pte = get_val pte swpoff_mask 5

-- PAGING_PGN and PAGING_OFFST of an address
pub addr_pgn : ℕ → ℕ
unfolding pgn_mask
addr_pgn x = get_val x pgn_mask addr_lobit

pub addr_offst : ℕ → ℕ
unfolding offst_mask
addr_offst x = get_val x offst_mask 0

pub pte_set_swap : ℕ → ℕ → ℕ → ℕ
pte_set_swap pte swptyp swpoff =
    let pte1 = set_bit pte present_mask in
    let pte2 = set_bit pte1 swapped_mask in
    let pte3 = set_val pte2 swptyp swptyp_mask 0 in set_val pte3 swpoff swpoff_mask 5

pub pte_set_fpn : ℕ → ℕ → ℕ
pte_set_fpn pte fpn =
    let pte1 = set_bit pte present_mask in
    let pte2 = clr_bit pte1 swapped_mask in set_val pte2 fpn fpn_mask 0

-- The result of `init_pte`, 0 or -1, and the entry.
pub record Init : Type 0 where
  pub result : ℕ
  pub pte : ℕ

pub init_pte : ℕ → (pre fpn drt swp swptyp swpoff : ℕ) → Init
init_pte pte pre fpn drt swp swptyp swpoff =
    if pre == 0
    then record { result = 0; pte = pte }
    else if swp == 0
    then (if fpn == 0
        then record { result = minus_one; pte = pte }
        else (let pte1 = set_bit pte present_mask in
            let pte2 = clr_bit pte1 swapped_mask in
            let pte3 = clr_bit pte2 dirty_mask in
            record { result = 0; pte = set_val pte3 fpn fpn_mask 0 }))
    else (let pte1 = set_bit pte present_mask in
        let pte2 = set_bit pte1 swapped_mask in
        let pte3 = clr_bit pte2 dirty_mask in
        let pte4 = set_val pte3 swptyp swptyp_mask 0 in
        record { result = 0; pte = set_val pte4 swpoff swpoff_mask 5 })
