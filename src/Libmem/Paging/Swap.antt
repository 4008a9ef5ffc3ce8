-- ===== src/Libmem/Paging/Swap.antt =====
-- `pg_getpage` on a page that is not present: what the two copies and the two entries come to.
use simple_32bit_os.Base.{
  ℕ, ◌+◌, ◌*◌, ◌%◌, ◌<◌, ◌^◌, ◌≡◌, ◌≢◌, refl, sym, ap, ◌∙◌, some, arith, ltb, leb, ◌==◌, ◌||◌,
  if◌then◌else◌, true, false, is_neg, List, [], ◌∷◌, ◌++◌, ==_self,
}
use simple_32bit_os.Pte.{pagesz, max_pgn, page_present, pte_fpn, pte_swp, pte_set_swap, pte_set_fpn}
use simple_32bit_os.Pte.Arithmetic.{pte_fpn_lem}
use simple_32bit_os.Pte.Fields.{pte_set_fpn_fields, pte_set_swap_fields}
use simple_32bit_os.Memphy.{Memphy, swap_cp_page}
use simple_32bit_os.Memphy.Frames.{get_freefp-cons}
use simple_32bit_os.Memphy.Copy.{IsFrame, swap_cp_page-Copied, Copied-frame, Copied-other}
use simple_32bit_os.Memory.{Mm, Caller, get_pte, set_pte}
use simple_32bit_os.Mm.{enlist_pgn_node}
use simple_32bit_os.Mm.Alloc.{with_free}
use simple_32bit_os.Libmem.Paging.{pg_getpage, swap_in, replace_page, page_of, find_victim_page}
use simple_32bit_os.Libmem.Paging.Victim.{find_victim_page-append}
use simple_32bit_os.Libmem.Paging.Present.{pg_getpage-present}

-- Page `pgn` has never been mapped or is marked absent, page `vic` was enlisted first, in front of
-- `left`, and `swp` is the first free frame of the swap device. The frames are inside their devices.
pub record IsFault (caller : Caller) (pgn vic : ℕ) (left : List ℕ) (swp : ℕ) (free : List ℕ)
    : Type 0 where
  pub page : pgn < max_pgn
  pub absent : page_present (caller.mm.pgd pgn) ≡ false
  pub victim : vic < max_pgn
  pub other : vic ≢ pgn
  pub first : caller.mm.fifo_pgn ≡ left ++ (vic ∷ [])
  pub words : (p : ℕ) → caller.mm.pgd p < 2 ^ 32
  pub swap_free : caller.active_mswp.free_fp_list ≡ swp ∷ free
  pub apart : swp ≢ pte_swp (caller.mm.pgd pgn)
  pub victim_frame : IsFrame caller.mram (pte_fpn (caller.mm.pgd vic))
  pub swap_frame : IsFrame caller.active_mswp swp
  pub target_frame : IsFrame caller.active_mswp (pte_swp (caller.mm.pgd pgn))

-- The caller after the fault: the frame of the victim holds what the entry of the page names in swap,
-- the free swap frame holds what the victim had, and the two entries and the list say so.
pub record SwappedIn (caller : Caller) (pgn vic : ℕ) (left : List ℕ) (swp : ℕ) (free : List ℕ)
    (after : Caller) : Type 0 where
  pub loaded :
      (i : ℕ)
      → i < pagesz
      → after.mram.storage (pte_fpn (caller.mm.pgd vic) * pagesz + i)
        ≡ caller.active_mswp.storage (pte_swp (caller.mm.pgd pgn) * pagesz + i)
  pub saved :
      (i : ℕ)
      → i < pagesz
      → after.active_mswp.storage (swp * pagesz + i)
        ≡ caller.mram.storage (pte_fpn (caller.mm.pgd vic) * pagesz + i)
  pub entries :
      (p : ℕ)
      → after.mm.pgd p ≡ (
          if p == pgn
          then pte_set_fpn (caller.mm.pgd pgn) (pte_fpn (caller.mm.pgd vic))
          else if p == vic
          then pte_set_swap (caller.mm.pgd vic) 0 swp
          else caller.mm.pgd p)
  pub enlisted : after.mm.fifo_pgn ≡ pgn ∷ left
  pub free_left : after.active_mswp.free_fp_list ≡ free

module _ (caller : Caller) (pgn vic : ℕ) (left : List ℕ) (swp : ℕ) (free : List ℕ)
    (is : IsFault caller pgn vic left swp free) where
  abbrev swap_taken : Memphy
  swap_taken = with_free caller.active_mswp free

  -- The body of `swap_in`, given what the two copies return.
  swap_in-copies :
      (mswp mram : Memphy)
      → swap_cp_page caller.mram (pte_fpn (caller.mm.pgd vic)) swap_taken swp
        ≡ some (caller.mram, mswp)
      → swap_cp_page mswp (pte_swp (caller.mm.pgd pgn)) caller.mram (pte_fpn (caller.mm.pgd vic))
        ≡ some (mswp, mram)
      → (mm : Mm) × (swap_in caller
            (record caller.mm { fifo_pgn = left })
            pgn
            (caller.mm.pgd pgn)
            vic
          ≡ some (record { mm = mm; mram = mram; active_mswp = mswp }))
        × ((p : ℕ)
            → mm.pgd p ≡ (
                if p == pgn
                then pte_set_fpn (caller.mm.pgd pgn) (pte_fpn (caller.mm.pgd vic))
                else if p == vic
                then pte_set_swap (caller.mm.pgd vic) 0 swp
                else caller.mm.pgd p))
        × (mm.fifo_pgn ≡ pgn ∷ left)
  unfolding swap_in get_pte set_pte enlist_pgn_node
  swap_in-copies mswp mram copy_out copy_in =
      let page : ltb pgn max_pgn ≡ true = ground (arith, is.page) in
      let victim : ltb vic max_pgn ≡ true = ground (arith, is.victim) in
      let other : (pgn == vic) ≡ false = ground (arith, is.other) in
      let mm1 = record caller.mm {
        pgd = λ p. if p == vic then pte_set_swap (caller.mm.pgd vic) 0 swp else caller.mm.pgd p;
        fifo_pgn = pgn ∷ left;
      } in
      (
        record mm1 {
          pgd = λ p.
              if p == pgn
              then pte_set_fpn (caller.mm.pgd pgn) (pte_fpn (caller.mm.pgd vic))
              else mm1.pgd p;
        },
        rw (
          get_freefp-cons caller.active_mswp swp free is.swap_free,
          victim,
          page,
          copy_out,
          copy_in,
          other,
        ),
        λ p. refl,
        refl,
      )

  swap_in-SwappedIn :
      (after : Caller) × (swap_in caller
          (record caller.mm { fifo_pgn = left })
          pgn
          (caller.mm.pgd pgn)
          vic
        ≡ some after)
      × SwappedIn caller pgn vic left swp free after
  swap_in-SwappedIn =
      let to : IsFrame swap_taken swp = record {
        inside = is.swap_frame.inside;
        small = is.swap_frame.small;
        random = is.swap_frame.random;
      } in
      let (mswp, copy_out, out) =
        swap_cp_page-Copied caller.mram swap_taken (pte_fpn (caller.mm.pgd vic)) swp is.victim_frame
          to in
      let target : IsFrame mswp (pte_swp (caller.mm.pgd pgn)) = record {
        inside = omega (arith, is.target_frame.inside, out.same_size);
        small = omega (arith, is.target_frame.small, out.same_size);
        random = λ e. is.target_frame.random (sym out.same_flag ∙ e);
      } in
      let (mram, copy_in, in_) =
        swap_cp_page-Copied mswp caller.mram (pte_swp (caller.mm.pgd pgn))
          (pte_fpn (caller.mm.pgd vic)) target is.victim_frame in
      let (mm, call, entries, enlisted) = swap_in-copies mswp mram copy_out copy_in in
      (
        record { mm = mm; mram = mram; active_mswp = mswp },
        call,
        record {
          loaded = λ i h.
              Copied-frame mswp (pte_swp (caller.mm.pgd pgn)) caller.mram
                (pte_fpn (caller.mm.pgd vic)) mram in_ i h
              ∙ Copied-other caller.mram (pte_fpn (caller.mm.pgd vic)) swap_taken swp mswp out
                  (pte_swp (caller.mm.pgd pgn)) i (λ e. is.apart (sym e)) h;
          saved = Copied-frame caller.mram (pte_fpn (caller.mm.pgd vic)) swap_taken swp mswp out;
          entries = entries;
          enlisted = enlisted;
          free_left = out.same_free;
        },
      )

-- A page fault. The page is not present; the page that was enlisted first is another one, the first
-- free frame in swap is not the one that the entry of the page names, the frames lie inside their
-- devices, which have random access, and the entries are words. Then `pg_getpage` returns the frame
-- of the page that was enlisted first. That frame now holds what the entry of the page names in
-- swap, and the free swap frame what the frame held; the entries of the two pages are rewritten and
-- all others stay, and the page is enlisted last.
pub pg_getpage-SwappedIn :
    (caller : Caller) (pgn vic : ℕ) (left : List ℕ) (swp : ℕ) (free : List ℕ)
    → IsFault caller pgn vic left swp free
    → (after : Caller) × (pg_getpage caller pgn
        ≡ some (record { result = 0; fpn = some (pte_fpn (caller.mm.pgd vic)); caller = after }))
      × SwappedIn caller pgn vic left swp free after
unfolding pg_getpage replace_page page_of get_pte
pg_getpage-SwappedIn caller pgn vic left swp free is =
    let (after, call, swapped) = swap_in-SwappedIn caller pgn vic left swp free is in
    let valid : (is_neg pgn || leb max_pgn pgn) ≡ false = ground (arith, is.page) in
    let inside : ltb pgn max_pgn ≡ true = ground (arith, is.page) in
    let chosen : find_victim_page caller.mm.fifo_pgn ≡ some (vic, left) =
      ap find_victim_page is.first ∙ find_victim_page-append vic left in
    let self : (pgn == pgn) ≡ true = ==_self pgn in
    let entry : after.mm.pgd pgn ≡ pte_set_fpn (caller.mm.pgd pgn) (pte_fpn (caller.mm.pgd vic)) =
      swapped.entries pgn ∙ rw self in
    let frame_field =
      pte_set_fpn_fields (caller.mm.pgd pgn) (pte_fpn (caller.mm.pgd vic)) (is.words pgn) in
    let frame : pte_fpn (pte_set_fpn (caller.mm.pgd pgn) (pte_fpn (caller.mm.pgd vic)))
        ≡ pte_fpn (caller.mm.pgd vic) =
      frame_field.3 ∙ omega (arith, pte_fpn_lem (caller.mm.pgd vic) (is.words vic)) in
    (after, rw (valid, inside, is.absent, chosen, call, inside, entry, frame), swapped)

-- After a page fault as in `pg_getpage-SwappedIn` the page of the victim is not brought back when
-- it is asked for: its entry still has the present bit, and `pg_getpage` takes the low bits of its
-- place in swap for a frame, and changes nothing.
pub pg_getpage-victim :
    (caller : Caller) (pgn vic : ℕ) (left : List ℕ) (swp : ℕ) (free : List ℕ) (after : Caller)
    → IsFault caller pgn vic left swp free
    → SwappedIn caller pgn vic left swp free after
    → pg_getpage after vic
      ≡ some (record { result = 0; fpn = some (32 * swp % 2 ^ 13); caller = after })
pg_getpage-victim caller pgn vic left swp free after is swapped =
    let apart : (vic == pgn) ≡ false = ground (arith, is.other) in
    let self : (vic == vic) ≡ true = ==_self vic in
    let entry : after.mm.pgd vic ≡ pte_set_swap (caller.mm.pgd vic) 0 swp =
      swapped.entries vic ∙ rw (apart, self) in
    let fields = pte_set_swap_fields (caller.mm.pgd vic) 0 swp (is.words vic) in
    let frame : pte_fpn (after.mm.pgd vic) ≡ 32 * swp % 2 ^ 13 =
      ap pte_fpn entry ∙ fields.6 ∙ omega arith in
    pg_getpage-present after vic is.victim (ap page_present entry ∙ fields.5)
    ∙ ap (λ (f : ℕ). some (record { result = 0; fpn = some f; caller = after })) frame
