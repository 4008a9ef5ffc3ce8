-- ===== src/Segments/Obsolete.antt =====
-- What is left of the segmented memory.
use simple_32bit_os.Base.{
  ℕ, zero, suc, ◌+◌, ◌-◌, ◌*◌, ◌/◌, ◌%◌, ◌^◌, ◌<◌, ◌≡◌, refl, ap, ◌∙◌, none, some, arith, get_elem?,
  bit_and, u32,
}
use simple_32bit_os.Bits.{and-ones}
use simple_32bit_os.Segments.{
  Ram, Seg, get_offset, get_first_lv, get_second_lv, get_trans_table, in_table, translate,
  alloc_mem, read_mem, write_mem, alloc, read, write,
}

-- The three parts of an address: the offset has ten bits, the second index five, the first the rest,
-- and together they are the address.
pub address_parts :
    (addr : ℕ)
    → addr < 2 ^ 32
    → (get_offset addr < 2 ^ 10)
      × (get_second_lv addr < 2 ^ 5)
      × (addr ≡ (get_first_lv addr * 2 ^ 5 + get_second_lv addr) * 2 ^ 10 + get_offset addr)
unfolding get_offset get_first_lv get_second_lv
address_parts addr h =
    let off : bit_and addr (2 ^ 10 - 1) ≡ addr % 2 ^ 10 =
      ap (λ a. bit_and a (2 ^ 10 - 1)) {y = addr / 2 ^ 10 * 2 ^ 10 + addr % 2 ^ 10} (omega arith)
      ∙ and-ones 10 (addr / 2 ^ 10) (addr % 2 ^ 10) (omega arith) in
    (omega (arith, off), omega arith, omega (arith, off))

never_there : (index n : ℕ) → get_trans_table index n ≡ none
unfolding get_trans_table
never_there index zero = refl
never_there index (suc n) = never_there index n

never_translated : (addr : ℕ) (proc : Seg) → translate addr proc ≡ 0
unfolding translate in_table
never_translated addr proc = rw (never_there (get_first_lv addr) proc.table_size) refl

-- For every process, and whatever is asked for: ALLOC fails and changes nothing; WRITE to an address
-- in a register fails and changes nothing; READ from one takes the failure of `read_mem` for a
-- success, and uses a byte that nobody has set.
pub read_fails :
    (m : Ram) (proc : Seg) (size reg_index base source offset destination data_ : ℕ)
    → get_elem? proc.regs source ≡ some base
    → (alloc proc size reg_index ≡ some (1, proc))
      × (write m proc data_ source offset ≡ some (1, m))
      × (read m proc source offset destination ≡ none)
unfolding alloc alloc_mem write write_mem read read_mem
read_fails m proc size reg_index base source offset destination data_ at = (
  refl,
  rw (at, never_translated (u32 (base + offset)) proc) refl,
  rw (at, never_translated (u32 (base + offset)) proc) refl,
)
