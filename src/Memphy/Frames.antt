-- ===== src/Memphy/Frames.antt =====
-- The list of free frames: what `init_memphy` puts there, and what taking and giving back keeps.
use simple_32bit_os.Base.{
  ℕ, zero, suc, ◌+◌, ◌-◌, ◌*◌, ◌/◌, ◌<◌, ◌≤◌, ◌≡◌, ◌≢◌, inl, inr, Bool-cases, refl, subst, ap, none,
  some, List, [], ◌∷◌, arith, ◌==◌, false, minus_one, All, length,
}
use simple_32bit_os.Pte.{pagesz}
use simple_32bit_os.Memphy.{
  Memphy, Frame, frames_from, format, get_freefp, put_freefp, first_free, init_memphy,
}

-- No frame is listed twice.
abbrev pub Distinct : List ℕ → Type 0
Distinct [] = Unit
Distinct (x ∷ xs) = All (λ y. x ≢ y) xs × Distinct xs

-- The free frames are distinct and lie inside the device.
pub record IsValid (mp : Memphy) : Type 0 where
  pub distinct : Distinct mp.free_fp_list
  pub inside : All (λ f. (f + 1) * pagesz ≤ mp.maxsz) mp.free_fp_list

frames_from-above : (n i j : ℕ) → j < i → All (λ y. j ≢ y) (frames_from n i)
unfolding frames_from
frames_from-above zero i j h = tt
frames_from-above (suc n) i j h = (omega arith, frames_from-above n (suc i) j (omega arith))

frames_from-Distinct : (n i : ℕ) → Distinct (frames_from n i)
unfolding frames_from
frames_from-Distinct zero i = tt
frames_from-Distinct (suc n) i =
    (frames_from-above n (suc i) i (omega arith), frames_from-Distinct n (suc i))

frames_from-inside :
    (n i size : ℕ) → (i + n) * pagesz ≤ size → All (λ f. (f + 1) * pagesz ≤ size) (frames_from n i)
unfolding frames_from
frames_from-inside zero i size h = tt
frames_from-inside (suc n) i size h = (omega arith, frames_from-inside n (suc i) size (omega arith))

length-frames_from : (n i : ℕ) → length (frames_from n i) ≡ n
unfolding frames_from
length-frames_from zero i = refl
length-frames_from (suc n) i = ap suc (length-frames_from n (suc i))

frames_from-pos : (n : ℕ) → n ≢ 0 → 0 ∷ frames_from (n - 1) 1 ≡ frames_from n 0
unfolding frames_from
frames_from-pos zero h = absurd (h refl)
frames_from-pos (suc n) h = ap (λ m. 0 ∷ frames_from m 1) {x = suc n - 1} (omega arith)

init_memphy-list :
    (mp : Memphy) (size flag : ℕ) (junk : List ℕ)
    → 2 * pagesz ≤ size
    → (init_memphy mp size flag junk).free_fp_list ≡ frames_from (size / pagesz) 0
unfolding init_memphy format
init_memphy-list mp size flag junk h =
    let some_frame : (size / pagesz == 0) ≡ false = ground arith in
    let more : (size / pagesz == 1) ≡ false = ground arith in
    let list = frames_from-pos (size / pagesz) (omega arith) in
    elim (Bool-cases (flag == 0)) [
      | inl sequential ↦ rw (some_frame, more, sequential) list
      | inr random ↦ rw (some_frame, more, random) list
    ]

init_memphy-maxsz :
    (mp : Memphy) (size flag : ℕ) (junk : List ℕ) → (init_memphy mp size flag junk).maxsz ≡ size
unfolding init_memphy format
init_memphy-maxsz mp size flag junk = ground arith

init_memphy-storage :
    (mp : Memphy) (size flag : ℕ) (junk : List ℕ) (a : ℕ)
    → (init_memphy mp size flag junk).storage a ≡ 0
unfolding init_memphy format
init_memphy-storage mp size flag junk a = ground arith

-- A device of at least two frames starts with every one of its frames free, once each and in order,
-- and every byte 0.
pub init_memphy-free :
    (mp : Memphy) (size flag : ℕ) (junk : List ℕ)
    → 2 * pagesz ≤ size
    → let m = init_memphy mp size flag junk in
      (m.free_fp_list ≡ frames_from (size / pagesz) 0)
      × IsValid m
      × (length m.free_fp_list ≡ size / pagesz)
      × (m.maxsz ≡ size)
      × ((a : ℕ) → m.storage a ≡ 0)
init_memphy-free mp size flag junk h =
    let list = init_memphy-list mp size flag junk h in
    let maxsz = init_memphy-maxsz mp size flag junk in
    (
      list,
      record {
        distinct = rw list (frames_from-Distinct (size / pagesz) 0);
        inside = rw (list, maxsz) (frames_from-inside (size / pagesz) 0 size (omega arith));
      },
      rw list (length-frames_from (size / pagesz) 0),
      maxsz,
      init_memphy-storage mp size flag junk,
    )

-- With fewer than `pagesz` bytes nothing is formatted: the list stays what it was in the struct,
-- which nobody has set.
pub init_memphy-unset :
    (mp : Memphy) (size flag : ℕ) (junk : List ℕ)
    → size < pagesz
    → (init_memphy mp size flag junk).free_fp_list ≡ mp.free_fp_list
unfolding init_memphy format
init_memphy-unset mp size flag junk h = ground arith

-- What `MEMPHY_get_freefp` may return on a device.
pub data Taken (mp : Memphy) : Frame → Type 0 where
  exhausted :
      mp.free_fp_list ≡ [] → Taken mp (record { result = minus_one; fpn = none; memphy = mp })
  taken :
      (f : ℕ) (rest : List ℕ)
      → mp.free_fp_list ≡ f ∷ rest
      → (f + 1) * pagesz ≤ mp.maxsz
      → All (λ y. f ≢ y) rest
      → Taken mp (record { result = 0; fpn = some f; memphy = record mp { free_fp_list = rest } })

first_free-Taken :
    (mp : Memphy) (fps : List ℕ)
    → mp.free_fp_list ≡ fps
    → IsValid mp
    → Taken mp (first_free mp fps) × IsValid (first_free mp fps).memphy
unfolding first_free
first_free-Taken mp [] e v = (exhausted e, v)
first_free-Taken mp (f ∷ rest) e v =
    let distinct : Distinct (f ∷ rest) = subst Distinct e v.distinct in
    let inside : All (λ f. (f + 1) * pagesz ≤ mp.maxsz) (f ∷ rest) =
      subst (All (λ f. (f + 1) * pagesz ≤ mp.maxsz)) e v.inside in
    (taken f rest e inside.0 distinct.0, record { distinct = distinct.1; inside = inside.1 })

pub get_freefp-cons :
    (mp : Memphy) (f : ℕ) (rest : List ℕ)
    → mp.free_fp_list ≡ f ∷ rest
    → get_freefp mp
      ≡ record { result = 0; fpn = some f; memphy = record mp { free_fp_list = rest } }
unfolding get_freefp first_free
get_freefp-cons mp f rest e = rw e

-- `MEMPHY_get_freefp` on a valid device takes the first free frame, which lies inside the device and
-- is not free any more; it fails exactly if no frame is free. The device stays valid.
pub get_freefp-Taken :
    (mp : Memphy) → IsValid mp → Taken mp (get_freefp mp) × IsValid (get_freefp mp).memphy
unfolding get_freefp
get_freefp-Taken mp v = first_free-Taken mp mp.free_fp_list refl v

-- Giving back a frame of the device that is not free keeps the device valid.
pub put_freefp-IsValid :
    (mp : Memphy) (fpn : ℕ)
    → IsValid mp
    → All (λ y. fpn ≢ y) mp.free_fp_list
    → (fpn + 1) * pagesz ≤ mp.maxsz
    → IsValid (put_freefp mp fpn)
unfolding put_freefp
put_freefp-IsValid mp fpn v new inside = record {
  distinct = (new, v.distinct);
  inside = (inside, v.inside);
}

-- `main` creates its devices with the flag 1.
pub init_memphy-random :
    (mp : Memphy) (size : ℕ) (junk : List ℕ) → (init_memphy mp size 1 junk).rdmflg ≡ 1
unfolding init_memphy format
init_memphy-random mp size junk = ground arith
