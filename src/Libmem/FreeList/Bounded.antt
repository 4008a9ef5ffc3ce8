-- ===== src/Libmem/FreeList/Bounded.antt =====
-- The search of `get_free_vmrg_area` makes no bound of a free region large.
use simple_32bit_os.Base.{
  ℕ, zero, suc, ◌+◌, ◌<◌, ◌^◌, inl, inr, Bool-cases, arith, ltb, leb, ◌==◌, u64, sext, List, [],
  ◌∷◌, All, Holds, Holds-bind, Holds-some, some,
}
use simple_32bit_os.Memory.{Region}
use simple_32bit_os.Libmem.FreeList.{Probe, behind, fitted, probe}
use simple_32bit_os.Libmem.FreeList.Search.{NoWrap}

abbrev pub Bounded : Region → Type 0
Bounded r = (r.rg_start < 2 ^ 63) × (r.rg_end < 2 ^ 63)

pub Bounded-NoWrap : (n : ℕ) (rs : List Region) → n < 2 ^ 31 → All Bounded rs → NoWrap n rs
Bounded-NoWrap n [] small v = tt
Bounded-NoWrap n (r ∷ rs) small v =
    ((omega (arith, v.0.0), omega (arith, v.0.1)), Bounded-NoWrap n rs small v.1)

module _ (vmaid size : ℕ) where
  behind-Bounded :
      (r : Region) (p : Probe) → Bounded r → All Bounded p.freerg → All Bounded (behind r p).freerg
  unfolding behind
  behind-Bounded r p v w = (v, w)

  pub probe-Bounded :
      (fuel : ℕ) (rs : List Region) (old : Region)
      → All Bounded rs
      → Holds (λ p. All Bounded p.freerg) (probe fuel vmaid size rs old)
  unfolding probe
  probe-Bounded zero rs old v = tt
  probe-Bounded (suc fuel) [] old v = tt
  probe-Bounded (suc fuel) (r ∷ []) old v =
      let used = record r { rg_start = r.rg_end } in
      let again = probe-Bounded fuel (used ∷ []) (fitted old size r) ((v.0.1, v.0.1), tt) in
      elim (Bool-cases (r.vmaid == sext vmaid)) [
        | inr other ↦ rw other v
        | inl same ↦ elim (Bool-cases (leb (u64 (r.rg_start + sext size)) r.rg_end)) [
          | inr short ↦
              rw (same, short)
                (Holds-bind (λ p. All Bounded p.freerg) (probe fuel vmaid size [] old)
                  (λ p. some (behind r p))
                  λ p e.
                    behind-Bounded r p v.0
                      (Holds-some (λ p. All Bounded p.freerg) (probe-Bounded fuel [] old tt) e))
          | inl fits ↦ elim (Bool-cases (ltb (u64 (r.rg_start + sext size)) r.rg_end)) [
            | inl more ↦ rw (same, fits, more) ((ground (arith, v.0.1), v.0.1), tt)
            | inr exact ↦ rw (same, fits, exact) again
          ]
        ]
      ]
  probe-Bounded (suc fuel) (r ∷ n ∷ rest) old v =
      let used = record r { rg_start = n.rg_start; rg_end = n.rg_end } in
      let again = probe-Bounded fuel (used ∷ rest) (fitted old size r) v.1 in
      let next = probe-Bounded fuel (n ∷ rest) old v.1 in
      elim (Bool-cases (r.vmaid == sext vmaid)) [
        | inr other ↦ rw other v
        | inl same ↦ elim (Bool-cases (leb (u64 (r.rg_start + sext size)) r.rg_end)) [
          | inr short ↦
              rw (same, short)
                (Holds-bind (λ p. All Bounded p.freerg) (probe fuel vmaid size (n ∷ rest) old)
                  (λ p. some (behind r p))
                  λ p e. behind-Bounded r p v.0 (Holds-some (λ p. All Bounded p.freerg) next e))
          | inl fits ↦ elim (Bool-cases (ltb (u64 (r.rg_start + sext size)) r.rg_end)) [
            | inl more ↦ rw (same, fits, more) ((ground (arith, v.0.1), v.0.1), v.1)
            | inr exact ↦ rw (same, fits, exact) again
          ]
        ]
      ]
