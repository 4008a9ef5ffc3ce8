-- ===== src/Memphy/Tests.antt =====
-- Devices of 1024 bytes, one that is read at random and one that is not.
use simple_32bit_os.Base.{◌≡◌, some, [], ◌∷◌, arith}
use Prim.Native.Nat.{◌%◌}
use simple_32bit_os.Pte.{pagesz}
use simple_32bit_os.Memphy.{Memphy, swap_cp_page}
use simple_32bit_os.Memphy.Copy.{IsFrame, Copied, swap_cp_page-Copied}

abbrev ram : Memphy
ram = record {
  storage = λ a. a % 256;
  maxsz = 1024;
  rdmflg = 1;
  cursor = 0;
  free_fp_list = 2 ∷ 3 ∷ [];
}

in_ram : IsFrame ram 1
in_ram = record { inside = omega arith; small = omega arith; random = λ e. omega (arith, e) }

in_swap : IsFrame ram 3
in_swap = record { inside = omega arith; small = omega arith; random = λ e. omega (arith, e) }

swap_cp_page-Copied_example :
    (dst' : Memphy) × (swap_cp_page ram 1 ram 3 ≡ some (ram, dst'))
    × Copied 0 pagesz ram 1 ram 3 dst'
swap_cp_page-Copied_example = swap_cp_page-Copied ram ram 1 3 in_ram in_swap
