-- ===== src/Memphy.antt =====
-- src/mm-memphy.c, and `__swap_cp_page` of src/mm.c: a physical memory device, RAM or swap. `none` is
-- an access outside `storage`, or a use of a byte that was never read. A device is passed by value,
-- so the guards against a NULL device have no counterpart; `used_fp_list` is never used.
pub mod Copy
pub mod Device
pub mod Frames
mod Tests
use simple_32bit_os.Base.{
  ℕ, zero, suc, ◌+◌, ◌-◌, ◌/◌, ◌%◌, Bool, Option, none, some, List, [], ◌∷◌, ltb, ◌==◌, not, ◌&&◌,
  if◌then◌else◌, ◌>>=◌, minus_one, int_lt, int_add, int_mul,
}
use simple_32bit_os.Pte.{pagesz}

-- `struct memphy_struct`. `maxsz` is an `int` that is not negative.
pub record Memphy : Type 0 where
  pub storage : ℕ → ℕ
  pub maxsz : ℕ
  pub rdmflg : ℕ
  pub cursor : ℕ
  pub free_fp_list : List ℕ

-- The loop of `MEMPHY_mv_csr`, with fuel.
pub advance : ℕ → ℕ → ℕ → Memphy → Memphy
advance zero numstep offset mp = mp
advance (suc k) numstep offset mp =
    let rest = advance k (suc numstep) offset (record mp { cursor = (mp.cursor + 1) % mp.maxsz }) in
    if int_lt numstep offset && ltb numstep mp.maxsz then rest else mp

-- `maxsz` rounds are enough.
pub mv_csr : Memphy → ℕ → Memphy
unfolding advance
mv_csr mp offset = advance mp.maxsz 0 offset (record mp { cursor = 0 })

-- `storage[addr]`, and its assignment
pub load : Memphy → ℕ → Option ℕ
load mp addr = if ltb addr mp.maxsz then some (mp.storage addr) else none

pub store : Memphy → ℕ → ℕ → Option Memphy
store mp addr value =
    if ltb addr mp.maxsz
    then some (record mp { storage = λ a. if a == addr then value else mp.storage a })
    else none

-- The result of a read, what it stores through `value`, if it does, and the device.
pub record Read : Type 0 where
  pub result : ℕ
  pub value : Option ℕ
  pub memphy : Memphy

pub seq_read : Memphy → ℕ → Option Read
unfolding load mv_csr
seq_read mp addr =
    if mp.rdmflg == 0 then some (record { result = minus_one; value = none; memphy = mp }) else (do
      v ← load (mv_csr mp addr) addr
      some (record { result = 0; value = some v; memphy = mv_csr mp addr }))

pub read : Memphy → ℕ → Option Read
unfolding load seq_read
read mp addr =
    if not (mp.rdmflg == 0)
    then (do v ← load mp addr; some (record { result = 0; value = some v; memphy = mp }))
    else seq_read mp addr

pub record Written : Type 0 where
  pub result : ℕ
  pub memphy : Memphy

pub seq_write : Memphy → ℕ → ℕ → Option Written
unfolding store mv_csr
seq_write mp addr value =
    if mp.rdmflg == 0
    then some (record { result = minus_one; memphy = mp })
    else (do mp' ← store (mv_csr mp addr) addr value; some (record { result = 0; memphy = mp' }))

pub write : Memphy → ℕ → ℕ → Option Written
unfolding store seq_write
write mp addr value =
    if not (mp.rdmflg == 0)
    then (do mp' ← store mp addr value; some (record { result = 0; memphy = mp' }))
    else seq_write mp addr value

-- The nodes that the loop of `MEMPHY_format` links, from `iter` on.
unfoldable pub frames_from : ℕ → ℕ → List ℕ
frames_from zero iter = []
frames_from (suc n) iter = iter ∷ frames_from n (suc iter)

-- `junk` is what the `fp_next` of the first node leads to, which is set only if the loop runs.
pub format : Memphy → (pagesz : ℕ) → (junk : List ℕ) → Written
unfolding frames_from
format mp pagesz junk =
    let numfp = mp.maxsz / pagesz in
    if numfp == 0 then record { result = minus_one; memphy = mp } else record {
      result = 0;
      memphy = record mp {
        free_fp_list = 0 ∷ (if numfp == 1 then junk else frames_from (numfp - 1) 1);
      };
    }

-- The result, and the frame stored through `retfpn`, if one is.
pub record Frame : Type 0 where
  pub result : ℕ
  pub fpn : Option ℕ
  pub memphy : Memphy

first_free : Memphy → List ℕ → Frame
first_free mp [] = record { result = minus_one; fpn = none; memphy = mp }
first_free mp (fp ∷ fps) = record {
  result = 0;
  fpn = some fp;
  memphy = record mp { free_fp_list = fps };
}

unfoldable pub get_freefp : Memphy → Frame
unfolding first_free
get_freefp mp = first_free mp mp.free_fp_list

pub put_freefp : Memphy → ℕ → Memphy
put_freefp mp fpn = record mp { free_fp_list = fpn ∷ mp.free_fp_list }

-- `mp` is the struct before, of any content.
pub init_memphy : Memphy → (max_size randomflg : ℕ) → (junk : List ℕ) → Memphy
unfolding format
init_memphy mp max_size randomflg junk =
    let formatted = format (record mp { storage = λ _. 0; maxsz = max_size }) pagesz junk in
    let flag : ℕ = if randomflg == 0 then 0 else 1 in
    if flag == 0
    then record formatted.memphy { rdmflg = flag; cursor = 0 }
    else record formatted.memphy { rdmflg = flag }

-- The loop of `__swap_cp_page`, with the given number of rounds left: the two devices.
pub copy_from : ℕ → ℕ → Memphy → ℕ → Memphy → ℕ → Option (Memphy × Memphy)
unfolding read write
copy_from zero cellidx src srcfpn dst dstfpn = some (src, dst)
copy_from (suc n) cellidx src srcfpn dst dstfpn = do
  r ← read src (int_add (int_mul srcfpn pagesz) cellidx)
  byte ← r.value
  w ← write dst (int_add (int_mul dstfpn pagesz) cellidx) byte
  copy_from n (suc cellidx) r.memphy srcfpn w.memphy dstfpn

pub swap_cp_page : Memphy → ℕ → Memphy → ℕ → Option (Memphy × Memphy)
unfolding copy_from
swap_cp_page src srcfpn dst dstfpn = copy_from pagesz 0 src srcfpn dst dstfpn
