-- ===== src/Libmem/Paging/Regions.antt =====
-- `libwrite` and `libread`: a byte through the symbol table and the page table.
use simple_32bit_os.Base.{
  ℕ, ◌<◌, ◌≡◌, some, arith, ltb, ◌==◌, ◌||◌, true, false, is_neg, [], ◌∷◌, get_elem?, sext_byte,
  ==_self, refl, ◌∙◌,
}
use simple_32bit_os.Memory.{Region, Vma, Caller, max_symtbl_sz}
use simple_32bit_os.Memphy.Device.{updated}
use simple_32bit_os.Vm.{get_vma_by_num}
use simple_32bit_os.Vm.Areas.{get_vma_by_num-one}
use simple_32bit_os.Libmem.FreeList.{get_symrg_byid, bad_rgid}
use simple_32bit_os.Libmem.Paging.{
  region_addr, read_region, write_region, libread, libwrite, destination_of,
}
use simple_32bit_os.Libmem.Paging.Present.{IsMapped, pg_getval-present, pg_setval-present, place_of}

-- A symbol of a process with one area, number 0, whose byte at an offset is mapped.
pub record IsSymbol (caller : Caller) (rgid offset : ℕ) : Type 0 where
  pub area : Vma
  pub one : caller.mm.mmap ≡ area ∷ []
  pub number : area.vm_id ≡ 0
  pub inside : rgid < max_symtbl_sz
  pub region : Region
  pub symbol : get_elem? caller.mm.symrgtbl rgid ≡ some region
  pub mapped : IsMapped caller (region_addr region offset)

module _ (caller : Caller) (rgid offset : ℕ) (is : IsSymbol caller rgid offset) where
  symbol_found : get_symrg_byid caller.mm rgid ≡ some rgid
  unfolding get_symrg_byid bad_rgid
  symbol_found =
      let good : (is_neg rgid || ltb max_symtbl_sz rgid) ≡ false = ground (arith, is.inside) in
      rw good

  area_found : get_vma_by_num caller.mm 0 ≡ some (some 0)
  area_found = get_vma_by_num-one caller.mm is.area 0 is.one is.number

  read_region-symbol :
      read_region caller 0 rgid offset
      ≡ some (record {
        result = 0;
        byte = some (caller.mram.storage (place_of caller (region_addr is.region offset)));
        caller = caller;
      })
  unfolding read_region
  read_region-symbol = rw (
    area_found,
    symbol_found,
    is.symbol,
    pg_getval-present caller (region_addr is.region offset) is.mapped,
  )

  write_region-symbol :
      (value : ℕ)
      → write_region caller 0 rgid offset value
        ≡ some (record {
          result = 0;
          caller = record caller {
            mram = updated caller.mram (place_of caller (region_addr is.region offset)) value;
          };
        })
  unfolding write_region
  write_region-symbol value = rw (
    area_found,
    symbol_found,
    is.symbol,
    pg_setval-present caller (region_addr is.region offset) is.mapped value,
  )

-- The byte of a symbol at an offset, in RAM.
abbrev pub symbol_place : Caller → Region → (offset : ℕ) → ℕ
symbol_place proc rg offset = place_of proc (region_addr rg offset)

-- The process with that byte written.
abbrev pub symbol_written : Caller → Region → (offset byte : ℕ) → Caller
symbol_written proc rg offset byte = record proc {
  mram = updated proc.mram (symbol_place proc rg offset) byte;
}

-- A symbol is where it was when a byte of RAM has changed.
pub updated-IsSymbol :
    (c : Caller) (byte place : ℕ) {rgid offset : ℕ} (is : IsSymbol c rgid offset)
    → (is' : IsSymbol (record c { mram = updated c.mram place byte }) rgid offset) × (is'.region
        ≡ is.region)
updated-IsSymbol c byte place is = (
  record {
    area = is.area;
    one = is.one;
    number = is.number;
    inside = is.inside;
    region = is.region;
    symbol = is.symbol;
    mapped = record {
      word = is.mapped.word;
      present = is.mapped.present;
      random = is.mapped.random;
      inside = is.mapped.inside;
      small = is.mapped.small;
    };
  },
  refl,
)

pub libwrite-symbol :
    (proc : Caller) (byte rgid offset : ℕ) (is : IsSymbol proc rgid offset)
    → libwrite proc byte rgid offset
      ≡ some (record { result = 0; caller = symbol_written proc is.region offset byte })
unfolding libwrite
libwrite-symbol proc byte rgid offset is = write_region-symbol proc rgid offset is byte

pub libread-symbol :
    (proc : Caller) (rgid offset : ℕ) (is : IsSymbol proc rgid offset)
    → libread proc rgid offset
      ≡ some (record {
        result = 0;
        destination = some (sext_byte (proc.mram.storage (symbol_place proc is.region offset)));
        proc = proc;
      })
unfolding libread destination_of
libread-symbol proc rgid offset is = rw (read_region-symbol proc rgid offset is)

-- In a process with one area, number 0, for a symbol inside the table and an offset at which its
-- page is present in a frame inside RAM, which has random access: a byte that `libwrite` writes
-- there is what `libread` finds, extended by its sign; both return 0, and the read changes nothing.
pub libread-libwrite :
    (proc : Caller) (byte rgid offset : ℕ)
    → IsSymbol proc rgid offset
    → (after : Caller) × (libwrite proc byte rgid offset
        ≡ some (record { result = 0; caller = after }))
      × (libread after rgid offset
          ≡ some (record { result = 0; destination = some (sext_byte byte); proc = after }))
libread-libwrite proc byte rgid offset is =
    let after = symbol_written proc is.region offset byte in
    let (is_after, e) = updated-IsSymbol proc byte (symbol_place proc is.region offset) is in
    let same : (symbol_place proc is.region offset == symbol_place proc is.region offset) ≡ true =
      ==_self (symbol_place proc is.region offset) in
    (
      after,
      libwrite-symbol proc byte rgid offset is,
      libread-symbol after rgid offset is_after ∙ rw (e, same) refl,
    )
