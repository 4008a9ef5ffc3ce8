-- ===== src/Memphy/Copy.antt =====
-- `__swap_cp_page` copies one page and touches nothing else.
use simple_32bit_os.Base.{
  ℕ, zero, suc, ◌+◌, ◌-◌, ◌*◌, ◌^◌, ◌<◌, ◌≤◌, ◌≡◌, ◌≢◌, refl, ◌∙◌, some, arith, ltb, leb, ◌&&◌,
  if◌then◌else◌, true, false, int_add, int_mul,
}
use simple_32bit_os.Pte.{pagesz}
use simple_32bit_os.Memphy.{Memphy, copy_from, swap_cp_page}
use simple_32bit_os.Memphy.Device.{IsRandom, updated, read-random, write-random}

-- A frame inside a device whose size is an `int`.
pub record IsFrame (mp : Memphy) (fpn : ℕ) : Type 0 where
  pub inside : (fpn + 1) * pagesz ≤ mp.maxsz
  pub small : mp.maxsz < 2 ^ 31
  pub random : IsRandom mp

-- `dst'` is `dst` with `n` bytes from offset `c` on of its frame `df` taken from frame `sf` of `src`.
pub record Copied (c n : ℕ) (src : Memphy) (sf : ℕ) (dst : Memphy) (df : ℕ) (dst' : Memphy)
    : Type 0 where
  pub bytes :
      (a : ℕ)
      → dst'.storage a ≡ (
          if leb (df * pagesz + c) a && ltb a (df * pagesz + c + n)
          then src.storage (a + sf * pagesz - df * pagesz)
          else dst.storage a)
  pub same_size : dst'.maxsz ≡ dst.maxsz
  pub same_flag : dst'.rdmflg ≡ dst.rdmflg
  pub same_cursor : dst'.cursor ≡ dst.cursor
  pub same_free : dst'.free_fp_list ≡ dst.free_fp_list

module _ (src : Memphy) (sf df : ℕ) (from : IsFrame src sf) where
  -- One round of the loop.
  copy_from-suc :
      (n c : ℕ) (dst : Memphy)
      → IsFrame dst df
      → c < pagesz
      → copy_from (suc n) c src sf dst df
        ≡ copy_from n
            (suc c)
            src
            sf
            (updated dst (df * pagesz + c) (src.storage (sf * pagesz + c)))
            df
  unfolding copy_from
  copy_from-suc n c dst to h =
      let at_src : int_add (int_mul sf pagesz) c ≡ sf * pagesz + c =
        omega (arith, from.inside, from.small) in
      let at_dst : int_add (int_mul df pagesz) c ≡ df * pagesz + c =
        omega (arith, to.inside, to.small) in
      rw (
        at_src,
        at_dst,
        read-random src (sf * pagesz + c) from.random (omega (arith, from.inside)),
        write-random dst (df * pagesz + c) (src.storage (sf * pagesz + c)) to.random
            (omega (arith, to.inside)),
      )

  copy_from-Copied :
      (n c : ℕ) (dst : Memphy)
      → IsFrame dst df
      → c + n ≤ pagesz
      → (dst' : Memphy) × (copy_from n c src sf dst df ≡ some (src, dst'))
        × Copied c n src sf dst df dst'
  copy_from-Copied zero c dst to h = (
    dst,
    unfold copy_from in refl,
    record {
      bytes = λ a. ground arith;
      same_size = refl;
      same_flag = refl;
      same_cursor = refl;
      same_free = refl;
    },
  )
  copy_from-Copied (suc n) c dst to h =
      let next = updated dst (df * pagesz + c) (src.storage (sf * pagesz + c)) in
      let next_frame : IsFrame next df = record {
        inside = to.inside;
        small = to.small;
        random = to.random;
      } in
      let (dst', e, copied) = copy_from-Copied n (suc c) next next_frame (omega arith) in
      (
        dst',
        copy_from-suc n c dst to (omega arith) ∙ e,
        record {
          bytes = λ a. ground (arith, copied.bytes a);
          same_size = copied.same_size;
          same_flag = copied.same_flag;
          same_cursor = copied.same_cursor;
          same_free = copied.same_free;
        },
      )

-- Between two devices of random access, for frames inside them, `__swap_cp_page` copies the 256
-- bytes of the source frame to the destination frame, in order; the rest of the destination and the
-- whole source stay.
pub swap_cp_page-Copied :
    (src dst : Memphy) (sf df : ℕ)
    → IsFrame src sf
    → IsFrame dst df
    → (dst' : Memphy) × (swap_cp_page src sf dst df ≡ some (src, dst'))
      × Copied 0 pagesz src sf dst df dst'
unfolding swap_cp_page
swap_cp_page-Copied src dst sf df from to =
    copy_from-Copied src sf df from pagesz 0 dst to (omega arith)

module _ (src : Memphy) (sf : ℕ) (dst : Memphy) (df : ℕ) (dst' : Memphy)
    (copied : Copied 0 pagesz src sf dst df dst') where
  -- The frame that was copied to, and every other frame.
  pub Copied-frame :
      (i : ℕ) → i < pagesz → dst'.storage (df * pagesz + i) ≡ src.storage (sf * pagesz + i)
  Copied-frame i h =
      let here : df * pagesz + i + sf * pagesz - df * pagesz ≡ sf * pagesz + i = omega arith in
      let test : (leb (df * pagesz + 0) (df * pagesz + i)
            && ltb (df * pagesz + i) (df * pagesz + 0 + pagesz))
          ≡ true =
        ground arith in
      copied.bytes (df * pagesz + i) ∙ rw (test, here)

  pub Copied-other :
      (g i : ℕ) → g ≢ df → i < pagesz → dst'.storage (g * pagesz + i) ≡ dst.storage (g * pagesz + i)
  Copied-other g i ne h =
      let test : (leb (df * pagesz + 0) (g * pagesz + i)
            && ltb (g * pagesz + i) (df * pagesz + 0 + pagesz))
          ≡ false =
        ground arith in
      copied.bytes (g * pagesz + i) ∙ rw test
