-- ===== src/Memphy/Device.antt =====
-- Bytes of a device: what is written is read, out of range is a fault, and a sequential device
-- refuses every access.
use simple_32bit_os.Base.{
  ℕ, zero, suc, ◌+◌, ◌%◌, ◌^◌, ◌<◌, ◌≤◌, ◌≡◌, ◌≢◌, ap, ◌∙◌, none, some, arith, ltb, ◌==◌, ◌&&◌,
  if◌then◌else◌, Bool-cases, inl, inr, true, false, minus_one, int_lt,
}
use Prim.Native.Nat.{min}
use native.Mathlib.Nat.{mod-eq_of_lt}
use simple_32bit_os.Memphy.{Memphy, advance, mv_csr, load, store, seq_read, read, seq_write, write}

-- A device of random access, as `init_memphy` makes it with a flag that is not 0.
abbrev pub IsRandom : Memphy → Type 0
IsRandom mp = mp.rdmflg ≢ 0

abbrev pub updated : Memphy → ℕ → ℕ → Memphy
updated mp addr value = record mp { storage = λ a. if a == addr then value else mp.storage a }

pub read-random :
    (mp : Memphy) (addr : ℕ)
    → IsRandom mp
    → addr < mp.maxsz
    → read mp addr ≡ some (record { result = 0; value = some (mp.storage addr); memphy = mp })
unfolding read load
read-random mp addr r h =
    let flag : (mp.rdmflg == 0) ≡ false = ground arith in
    let inside : ltb addr mp.maxsz ≡ true = ground arith in rw (flag, inside)

pub write-random :
    (mp : Memphy) (addr value : ℕ)
    → IsRandom mp
    → addr < mp.maxsz
    → write mp addr value ≡ some (record { result = 0; memphy = updated mp addr value })
unfolding write store
write-random mp addr value r h =
    let flag : (mp.rdmflg == 0) ≡ false = ground arith in
    let inside : ltb addr mp.maxsz ≡ true = ground arith in rw (flag, inside)

-- On a device of random access `MEMPHY_write` inside the storage succeeds, and after it `MEMPHY_read`
-- gives the written byte at that address and the old byte at every other.
pub read-write :
    (mp : Memphy) (addr value a : ℕ)
    → IsRandom mp
    → addr < mp.maxsz
    → a < mp.maxsz
    → (mp' : Memphy) × (write mp addr value ≡ some (record { result = 0; memphy = mp' }))
      × (read mp' a
          ≡ some (record {
            result = 0;
            value = some (if a == addr then value else mp.storage a);
            memphy = mp';
          }))
read-write mp addr value a r h h' = (
  updated mp addr value,
  write-random mp addr value r h,
  read-random (updated mp addr value) a r h',
)

-- A device that was set up for sequential access refuses every read and write with -1, whatever the
-- address, and stays as it is.
pub sequential_refuses :
    (mp : Memphy) (addr value : ℕ)
    → mp.rdmflg ≡ 0
    → (read mp addr ≡ some (record { result = minus_one; value = none; memphy = mp }))
      × (write mp addr value ≡ some (record { result = minus_one; memphy = mp }))
unfolding read write seq_read seq_write
sequential_refuses mp addr value e =
    let flag : (mp.rdmflg == 0) ≡ true = ground arith in (rw flag, rw flag)

-- On a device of random access a read or write from `maxsz` on is outside the storage.
pub out_of_range_fault :
    (mp : Memphy) (addr value : ℕ)
    → IsRandom mp
    → mp.maxsz ≤ addr
    → (read mp addr ≡ none) × (write mp addr value ≡ none)
unfolding read write load store
out_of_range_fault mp addr value r h =
    let flag : (mp.rdmflg == 0) ≡ false = ground arith in
    let outside : ltb addr mp.maxsz ≡ false = ground arith in
    (rw (flag, outside), rw (flag, outside))

abbrev pub with_cursor : Memphy → ℕ → Memphy
with_cursor mp c = record mp { cursor = c }

-- The loop, started where the cursor is `numstep` modulo the size.
advance_cursor :
    (k numstep offset : ℕ) (mp : Memphy)
    → 0 < mp.maxsz
    → mp.maxsz < 2 ^ 31
    → offset < 2 ^ 31
    → numstep ≤ min offset mp.maxsz
    → mp.maxsz ≤ numstep + k
    → mp.cursor ≡ numstep % mp.maxsz
    → advance k numstep offset mp ≡ with_cursor mp (min offset mp.maxsz % mp.maxsz)
unfolding advance
advance_cursor zero numstep offset mp pos small ho hn hk e =
    ap (λ (c : ℕ). with_cursor mp c) {x = mp.cursor}
      (e ∙ ap (λ (n : ℕ). n % mp.maxsz) {x = numstep} (omega arith))
advance_cursor (suc k) numstep offset mp pos small ho hn hk e =
    elim (Bool-cases (int_lt numstep offset && ltb numstep mp.maxsz)) [
      | inl more ↦
          let below : numstep < mp.maxsz = ground arith in
          let here : mp.cursor ≡ numstep = e ∙ mod-eq_of_lt below in
          rw more (
            advance_cursor k (suc numstep) offset (with_cursor mp ((mp.cursor + 1) % mp.maxsz)) pos
              small ho (ground arith) (omega arith)
              (ap (λ (n : ℕ). n % mp.maxsz) {x = mp.cursor + 1} (omega arith)))
      | inr stop ↦ rw stop (
          ap (λ (c : ℕ). with_cursor mp c) {x = mp.cursor}
            (e ∙ ap (λ (n : ℕ). n % mp.maxsz) {x = numstep} (ground arith)))
    ]

-- On a device that is not empty, for a size and an offset that are an `int` and not negative,
-- `MEMPHY_mv_csr` ends, within `maxsz` rounds, and leaves the cursor at the offset, cut at the size
-- and then taken modulo it.
pub mv_csr_lem :
    (mp : Memphy) (offset : ℕ)
    → 0 < mp.maxsz
    → mp.maxsz < 2 ^ 31
    → offset < 2 ^ 31
    → mv_csr mp offset ≡ with_cursor mp (min offset mp.maxsz % mp.maxsz)
unfolding mv_csr
mv_csr_lem mp offset pos small ho =
    advance_cursor mp.maxsz 0 offset (with_cursor mp 0) pos small ho (omega arith) (omega arith)
      (omega arith)
