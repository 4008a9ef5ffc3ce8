-- ===== src/Libmem/Paging/Tests.antt =====
-- The process of Libmem/Tests: bytes of page 0, and a page fault for page 1.
use simple_32bit_os.Base.{
  ℕ, ◌*◌, ◌%◌, ◌^◌, ◌<◌, ◌≡◌, refl, ◌∙◌, some, [], ◌∷◌, arith, sext_byte, true, false,
}
use simple_32bit_os.Pte.{page_present, pte_fpn, pte_swp, addr_pgn}
use simple_32bit_os.Pte.Arithmetic.{addr_pgn_lem}
use simple_32bit_os.Memphy.Copy.{IsFrame}
use simple_32bit_os.Memory.{Caller}
use simple_32bit_os.Libmem.Tests.{device, symbol, heap, process}
use simple_32bit_os.Libmem.Paging.{pg_getpage, libread, libwrite}
use simple_32bit_os.Libmem.Paging.Present.{IsMapped, frame_of}
use simple_32bit_os.Libmem.Paging.Regions.{IsSymbol, libread-libwrite}
use simple_32bit_os.Libmem.Paging.Swap.{IsFault, SwappedIn, pg_getpage-SwappedIn, pg_getpage-victim}

page_0 : (addr : ℕ) → addr < 256 → addr_pgn addr ≡ 0
page_0 addr h = addr_pgn_lem addr (omega arith) ∙ omega arith

frame_0 : pte_fpn (2 ^ 31) ≡ 0
unfolding pte_fpn
frame_0 = refl

present_0 : page_present (2 ^ 31) ≡ true
unfolding page_present
present_0 = refl

low-IsMapped : (addr : ℕ) → addr < 256 → IsMapped process addr
low-IsMapped addr h =
    let frame : frame_of process addr ≡ 0 = rw (page_0 addr h) frame_0 in
    record {
      word = omega arith;
      present = rw (page_0 addr h) present_0;
      random = λ e. omega (arith, e);
      inside = omega (arith, frame);
      small = omega arith;
    }

pub first-IsSymbol : IsSymbol process 0 4
first-IsSymbol = record {
  area = heap;
  one = refl;
  number = refl;
  inside = omega arith;
  region = symbol;
  symbol = refl;
  mapped = low-IsMapped 20 (omega arith);
}

libread-libwrite_example :
    (after : Caller) × (libwrite process 200 0 4 ≡ some (record { result = 0; caller = after }))
    × (libread after 0 4
        ≡ some (record { result = 0; destination = some (sext_byte 200); proc = after }))
libread-libwrite_example = libread-libwrite process 200 0 4 first-IsSymbol

device-IsFrame : (fpn : ℕ) → fpn < 4 → IsFrame device fpn
device-IsFrame fpn h = record {
  inside = omega arith;
  small = omega arith;
  random = λ e. omega (arith, e);
}

slot_0 : pte_swp 0 ≡ 0
unfolding pte_swp
slot_0 = refl

absent_0 : page_present 0 ≡ false
unfolding page_present
absent_0 = refl

fault : IsFault process 1 0 [] 1 (2 ∷ [])
fault = record {
  page = omega arith;
  absent = absent_0;
  victim = omega arith;
  other = λ e. omega (arith, e);
  first = refl;
  words = λ p. ground arith;
  swap_free = refl;
  apart = λ e. omega (arith, e, slot_0);
  victim_frame = device-IsFrame (pte_fpn (2 ^ 31)) (omega (arith, frame_0));
  swap_frame = device-IsFrame 1 (omega arith);
  target_frame = device-IsFrame (pte_swp 0) (omega (arith, slot_0));
}

pg_getpage-SwappedIn_example :
    (after : Caller) × (pg_getpage process 1
      ≡ some (record { result = 0; fpn = some (pte_fpn (2 ^ 31)); caller = after }))
    × SwappedIn process 1 0 [] 1 (2 ∷ []) after
pg_getpage-SwappedIn_example = pg_getpage-SwappedIn process 1 0 [] 1 (2 ∷ []) fault

abbrev after_fault : Caller
after_fault = (pg_getpage-SwappedIn process 1 0 [] 1 (2 ∷ []) fault).0

pg_getpage-victim_example :
    pg_getpage after_fault 0
    ≡ some (record { result = 0; fpn = some (32 * 1 % 2 ^ 13); caller = after_fault })
pg_getpage-victim_example =
    pg_getpage-victim process 1 0 [] 1 (2 ∷ []) after_fault fault
      (pg_getpage-SwappedIn process 1 0 [] 1 (2 ∷ []) fault).2
