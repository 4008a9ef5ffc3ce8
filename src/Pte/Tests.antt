-- ===== src/Pte/Tests.antt =====
-- Entries and addresses at fixed values.
use simple_32bit_os.Base.{◌+◌, ◌*◌, ◌%◌, ◌^◌, ◌<◌, ◌≡◌, refl, true, arith}
use simple_32bit_os.Pte.{page_present, pte_fpn, pte_swp, pte_set_swap}
use simple_32bit_os.Pte.Fields.{bit_at, bits, pte_set_swap_fields}

swapped_out : pte_set_swap 0 0 3 ≡ 0xC0000060
unfolding pte_set_swap
swapped_out = refl

pte_set_swap_fields_example :
    let e = pte_set_swap 0x80000005 0 3 in
    (e < 2 ^ 32)
    × (bit_at 30 e ≡ 1)
    × (pte_swp e ≡ 3 % 2 ^ 21)
    × (bits 0 5 e ≡ 0 % 2 ^ 5)
    × (bits 26 30 e ≡ bits 26 30 0x80000005)
    × (page_present e ≡ true)
    × (pte_fpn e ≡ (0 % 2 ^ 5 + 32 * 3) % 2 ^ 13)
pte_set_swap_fields_example = pte_set_swap_fields 0x80000005 0 3 (omega arith)
