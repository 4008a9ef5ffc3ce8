-- ===== src/Libmem/Paging/Present.antt =====
-- A page that is present: `pg_getpage` finds its frame, and `pg_setval` and `pg_getval` its bytes.
use simple_32bit_os.Base.{
  ℕ, ◌+◌, ◌*◌, ◌%◌, ◌<◌, ◌≤◌, ◌^◌, ◌≡◌, none, some, arith, ltb, leb, ◌==◌, ◌||◌, if◌then◌else◌,
  true, false, minus_one, is_neg,
}
use simple_32bit_os.Pte.{pagesz, max_pgn, page_present, pte_fpn, addr_pgn}
use simple_32bit_os.Pte.Arithmetic.{addr_offst_lem, addr_lobit_lem}
use simple_32bit_os.Pte.Fields.{addr_split}
use simple_32bit_os.Memphy.Device.{IsRandom, updated, read-random, write-random}
use simple_32bit_os.Memory.{Caller, get_pte}
use simple_32bit_os.Libmem.Paging.{
  pg_getpage, pg_getval, pg_setval, page_of, value_in, write_in, phy_addr,
}

-- `pg_getpage` refuses a page number outside the page table, and changes nothing.
pub pg_getpage-bounds :
    (caller : Caller) (pgn : ℕ)
    → max_pgn ≤ pgn
    → pgn < 2 ^ 32
    → pg_getpage caller pgn ≡ some (record { result = minus_one; fpn = none; caller = caller })
unfolding pg_getpage
pg_getpage-bounds caller pgn h small =
    let out : (is_neg pgn || leb max_pgn pgn) ≡ true = ground arith in rw out

-- For a page whose entry has the present bit `pg_getpage` finds the frame of the entry, and changes
-- nothing, whatever the swapped bit of the entry is.
pub pg_getpage-present :
    (caller : Caller) (pgn : ℕ)
    → pgn < max_pgn
    → page_present (caller.mm.pgd pgn) ≡ true
    → pg_getpage caller pgn
      ≡ some (record { result = 0; fpn = some (pte_fpn (caller.mm.pgd pgn)); caller = caller })
unfolding pg_getpage page_of get_pte
pg_getpage-present caller pgn h present =
    let out : (is_neg pgn || leb max_pgn pgn) ≡ false = ground arith in
    let inside : ltb pgn max_pgn ≡ true = ground arith in rw (out, inside, present)

-- The frame of an address, and the place of its byte in memory.
abbrev pub frame_of : Caller → (addr : ℕ) → ℕ
frame_of caller addr = pte_fpn (caller.mm.pgd (addr_pgn addr))

abbrev pub place_of : Caller → (addr : ℕ) → ℕ
place_of caller addr = frame_of caller addr * pagesz + addr % pagesz

-- The page of an address is present, in a frame inside the memory, which has random access.
pub record IsMapped (caller : Caller) (addr : ℕ) : Type 0 where
  pub word : addr < 2 ^ 32
  pub present : page_present (caller.mm.pgd (addr_pgn addr)) ≡ true
  pub random : IsRandom caller.mram
  pub inside : (frame_of caller addr + 1) * pagesz ≤ caller.mram.maxsz
  pub small : caller.mram.maxsz < 2 ^ 31

module _ (caller : Caller) (addr : ℕ) (is : IsMapped caller addr) where
  phy_addr_lem : phy_addr (frame_of caller addr) addr ≡ place_of caller addr
  phy_addr_lem = rw addr_lobit_lem (omega (arith, addr_offst_lem addr is.word, is.inside, is.small))

  place_of-inside : place_of caller addr < caller.mram.maxsz
  place_of-inside = omega (arith, is.inside)

  found_page :
      pg_getpage caller (addr_pgn addr)
      ≡ some (record { result = 0; fpn = some (frame_of caller addr); caller = caller })
  found_page = pg_getpage-present caller (addr_pgn addr) (addr_split addr is.word).1 is.present

  -- A byte of a page that is present is read at its place in the frame, and nothing changes.
  pub pg_getval-present :
      pg_getval caller addr
      ≡ some (record {
        result = 0;
        byte = some (caller.mram.storage (place_of caller addr));
        caller = caller;
      })
  unfolding pg_getval value_in
  pg_getval-present = rw (
    found_page,
    phy_addr_lem,
    read-random caller.mram (place_of caller addr) is.random place_of-inside,
  )

  pub pg_setval-present :
      (value : ℕ)
      → pg_setval caller addr value
        ≡ some (record {
          result = 0;
          caller = record caller { mram = updated caller.mram (place_of caller addr) value };
        })
  unfolding pg_setval write_in
  pg_setval-present value = rw (
    found_page,
    phy_addr_lem,
    write-random caller.mram (place_of caller addr) value is.random place_of-inside,
  )

-- For two addresses whose pages are present, in frames inside RAM, which has random access: after
-- `pg_setval` at the one, `pg_getval` at the other gives the value that was set if they have the
-- same place in memory, and the byte that was there otherwise.
pub pg_getval-pg_setval :
    (caller : Caller) (addr value addr' : ℕ)
    → IsMapped caller addr
    → IsMapped caller addr'
    → (after : Caller) × (pg_setval caller addr value
        ≡ some (record { result = 0; caller = after }))
      × (pg_getval after addr'
          ≡ some (record {
            result = 0;
            byte = some (
                if place_of caller addr' == place_of caller addr
                then value
                else caller.mram.storage (place_of caller addr'));
            caller = after;
          }))
pg_getval-pg_setval caller addr value addr' is is' =
    let after = record caller { mram = updated caller.mram (place_of caller addr) value } in
    let is_after : IsMapped after addr' = record {
      word = is'.word;
      present = is'.present;
      random = is'.random;
      inside = is'.inside;
      small = is'.small;
    } in
    (after, pg_setval-present caller addr is value, pg_getval-present after addr' is_after)
