-- ===== src/Mm/Alloc.antt =====
-- `alloc_pages_range` takes frames from the front of the free list, all or none that the caller keeps.
use mathlib.Core.List.{reverse, reverse_aux}
use simple_32bit_os.Base.{
  ℕ, zero, suc, ◌<◌, ◌≤◌, ◌^◌, ◌≡◌, refl, List, [], ◌∷◌, arith, length, take, drop, minus_one,
  is_neg, false,
}
use simple_32bit_os.Memphy.{Memphy, get_freefp}
use simple_32bit_os.Memory.{Caller}
use simple_32bit_os.Mm.{alloc_from, alloc_pages_range}

abbrev pub with_free : Memphy → List ℕ → Memphy
with_free mp free = record mp { free_fp_list = free }

alloc_from-enough :
    (n : ℕ) (mp : Memphy) (free frm_lst : List ℕ)
    → n ≤ length free
    → alloc_from n (with_free mp free) frm_lst ≡ record {
      result = 0;
      mram = with_free mp (drop n free);
      frm_lst = reverse_aux (take n free) frm_lst;
    }
unfolding alloc_from get_freefp
alloc_from-enough zero mp free frm_lst h = refl
alloc_from-enough (suc n) mp [] frm_lst h = absurd (omega arith)
alloc_from-enough (suc n) mp (f ∷ free) frm_lst h =
    alloc_from-enough n mp free (f ∷ frm_lst) (omega arith)

alloc_from-short :
    (n : ℕ) (mp : Memphy) (free frm_lst : List ℕ)
    → length free < n
    → alloc_from n (with_free mp free) frm_lst
      ≡ record { result = minus_one; mram = with_free mp []; frm_lst = reverse_aux free frm_lst }
unfolding alloc_from get_freefp
alloc_from-short zero mp free frm_lst h = absurd (omega arith)
alloc_from-short (suc n) mp [] frm_lst h = refl
alloc_from-short (suc n) mp (f ∷ free) frm_lst h =
    alloc_from-short n mp free (f ∷ frm_lst) (omega arith)

-- With enough free frames `alloc_pages_range` succeeds, takes the first ones off the free list, and
-- lists them in reverse.
pub alloc_pages_range-enough :
    (caller : Caller) (n : ℕ)
    → n < 2 ^ 31
    → n ≤ length caller.mram.free_fp_list
    → alloc_pages_range caller n ≡ record {
      result = 0;
      mram = with_free caller.mram (drop n caller.mram.free_fp_list);
      frm_lst = reverse (take n caller.mram.free_fp_list);
    }
unfolding alloc_pages_range
alloc_pages_range-enough caller n small h =
    let positive : is_neg n ≡ false = ground arith in
    rw positive (alloc_from-enough n caller.mram caller.mram.free_fp_list [] h)

-- With too few it fails, and leaves no frame free: those that it took are on the list that it built.
pub alloc_pages_range-short :
    (caller : Caller) (n : ℕ)
    → n < 2 ^ 31
    → length caller.mram.free_fp_list < n
    → alloc_pages_range caller n ≡ record {
      result = minus_one;
      mram = with_free caller.mram [];
      frm_lst = reverse caller.mram.free_fp_list;
    }
unfolding alloc_pages_range
alloc_pages_range-short caller n small h =
    let positive : is_neg n ≡ false = ground arith in
    rw positive (alloc_from-short n caller.mram caller.mram.free_fp_list [] h)
