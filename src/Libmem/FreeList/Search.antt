-- ===== src/Libmem/FreeList/Search.antt =====
-- The loop of `get_free_vmrg_area`: for a size above 0 it ends, at the first region in which the
-- size fits or behind the last one of the area.
use simple_32bit_os.Base.{
  ℕ, zero, suc, ◌+◌, ◌<◌, ◌≤◌, ◌^◌, ◌≡◌, ◌≢◌, ◌⊎◌, inl, inr, refl, ◌∙◌, some, arith, ltb, leb, ◌==◌,
  if◌then◌else◌, true, false, Bool-cases, u64, sext, List, [], ◌∷◌, length, All, Any, ◌&&◌,
}
use simple_32bit_os.Memory.{Region}
use simple_32bit_os.Libmem.FreeList.{Probe, behind, fitted, probe}

-- `size` bytes, sign-extended to `n`, fit in a region.
abbrev pub Fits : (n : ℕ) → Region → Type 0
Fits n r = r.rg_start + n ≤ r.rg_end

-- Nothing fits up to the end of the list, or up to a region of another area.
abbrev pub NoneFits : (vmaid n : ℕ) → List Region → Type 0
NoneFits vmaid n [] = Unit
NoneFits vmaid n (r ∷ rs) =
    (r.vmaid ≢ sext vmaid) ⊎ ((r.rg_end < r.rg_start + n) × NoneFits vmaid n rs)

-- `new` is the first `n` bytes of a region of the list that they fit in.
abbrev pub TakenFrom : (n : ℕ) → List Region → (new : Region) → Type 0
TakenFrom n rs new =
    Any (λ r. Fits n r × (new.rg_start ≡ r.rg_start) × (new.rg_end ≡ r.rg_start + n)) rs

-- How many regions of a list have the address `x`.
abbrev pub covers : Region → (x : ℕ) → ℕ
covers r x = if leb r.rg_start x && ltb x r.rg_end then 1 else 0

abbrev pub cover : List Region → (x : ℕ) → ℕ
cover [] x = 0
cover (r ∷ rs) x = covers r x + cover rs x

-- What is left of a list, and a region that was taken: no address is in them more often than before.
abbrev pub Splits : (rs left : List Region) (new : Region) → Type 0
Splits rs left new = (x : ℕ) → cover left x + covers new x ≤ cover rs x

-- What the loop may leave, when `newrg` was `old`.
pub data Searched (vmaid n : ℕ) (rs : List Region) (old : Region) : Probe → Type 0 where
  nothing : NoneFits vmaid n rs → Searched vmaid n rs old (record { newrg = old; freerg = rs })
  fit :
      (p : Probe) → TakenFrom n rs p.newrg → Splits rs p.freerg p.newrg → Searched vmaid n rs old p

-- Neither bound of a region wraps when `n` is added.
abbrev pub NoWrap : (n : ℕ) → List Region → Type 0
NoWrap n rs = All (λ r. (r.rg_start + n < 2 ^ 64) × (r.rg_end + n < 2 ^ 64)) rs

module _ (vmaid size : ℕ) (pos : 0 < sext size) where
  -- The three tests of the loop, as cases on a region.
  data Tests (r : Region) : Type 0 where
    other : r.vmaid ≢ sext vmaid → (r.vmaid == sext vmaid) ≡ false → Tests r
    inside :
        (r.vmaid == sext vmaid) ≡ true
        → leb (u64 (r.rg_start + sext size)) r.rg_end ≡ true
        → ltb (u64 (r.rg_start + sext size)) r.rg_end ≡ true
        → Fits (sext size) r
        → Tests r
    exact :
        (r.vmaid == sext vmaid) ≡ true
        → leb (u64 (r.rg_start + sext size)) r.rg_end ≡ true
        → ltb (u64 (r.rg_start + sext size)) r.rg_end ≡ false
        → Fits (sext size) r
        → Tests r
    short :
        (r.vmaid == sext vmaid) ≡ true
        → leb (u64 (r.rg_start + sext size)) r.rg_end ≡ false
        → r.rg_end < r.rg_start + sext size
        → Tests r

  tests : (r : Region) → r.rg_start + sext size < 2 ^ 64 → Tests r
  tests r h = elim (Bool-cases (r.vmaid == sext vmaid)) [
    | inr fails ↦ other (ground arith) fails
    | inl same ↦ elim (Bool-cases (leb (u64 (r.rg_start + sext size)) r.rg_end)) [
      | inr fails ↦ short same fails (ground arith)
      | inl fits ↦ elim (Bool-cases (ltb (u64 (r.rg_start + sext size)) r.rg_end)) [
        | inl more ↦ inside same fits more (ground arith)
        | inr fails ↦ exact same fits fails (ground arith)
      ]
    ]
  ]

  Searched-behind :
      (r : Region) (rs : List Region) (old : Region) (p : Probe)
      → r.rg_end < r.rg_start + sext size
      → Searched vmaid (sext size) rs old p
      → Searched vmaid (sext size) (r ∷ rs) old (behind r p)
  unfolding behind
  Searched-behind r rs old p short_ (nothing none_) = nothing (inr (short_, none_))
  Searched-behind r rs old p short_ (fit p' taken splits) =
      fit (behind r p') (inr taken) (λ x. omega (arith, splits x))

  fitted-covers :
      (r old : Region)
      → Fits (sext size) r
      → r.rg_start + sext size < 2 ^ 64
      → (x : ℕ) → covers (fitted old size r) x ≤ covers r x
  fitted-covers r old fits wrap x = ground arith

  -- The rest of a node behind what was taken from its front.
  fitted-splits :
      (r old : Region)
      → Fits (sext size) r
      → r.rg_start + sext size < 2 ^ 64
      → (x : ℕ)
      → covers (record r { rg_start = u64 (r.rg_start + sext size) }) x
          + covers (fitted old size r) x
        ≤ covers r x
  fitted-splits r old fits wrap x = ground arith

  -- After an exact fit at a node the loop goes on with a list whose regions are in the old one.
  Searched-exact :
      (r : Region) (rs rs' : List Region) (old : Region) (p : Probe)
      → Fits (sext size) r
      → r.rg_start + sext size < 2 ^ 64
      → ((new : Region) → TakenFrom (sext size) rs' new → TakenFrom (sext size) (r ∷ rs) new)
      → ((x : ℕ) → cover rs' x ≤ cover rs x)
      → Searched vmaid (sext size) rs' (fitted old size r) p
      → Searched vmaid (sext size) (r ∷ rs) old p
  Searched-exact r rs rs' old p fits wrap lift same (nothing none_) =
      fit (record { newrg = fitted old size r; freerg = rs' }) (inl (fits, refl, omega arith))
        (λ x. omega (arith, same x, fitted-covers r old fits wrap x))
  Searched-exact r rs rs' old p fits wrap lift same (fit p' taken splits) =
      fit p' (lift p'.newrg taken) (λ x. omega (arith, same x, splits x))

  -- The region that is left of an exact fit at the end of the list is empty and fits nothing.
  probe-used :
      (fuel : ℕ) (r : Region) (old : Region)
      → r.rg_start + sext size < 2 ^ 64
      → r.rg_end ≡ r.rg_start
      → probe (suc (suc fuel)) vmaid size (r ∷ []) old
        ≡ some (record { newrg = old; freerg = r ∷ [] })
  unfolding probe behind
  probe-used fuel r old wrap empty = elim (tests r wrap) [
    | other ne t ↦ rw t
    | inside t1 t2 t3 f ↦ absurd (omega arith)
    | exact t1 t2 t3 f ↦ absurd (omega arith)
    | short t1 t2 f ↦ rw (t1, t2)
  ]

  probe-exact :
      (fuel : ℕ) (r old : Region)
      → (r.vmaid == sext vmaid) ≡ true
      → leb (u64 (r.rg_start + sext size)) r.rg_end ≡ true
      → ltb (u64 (r.rg_start + sext size)) r.rg_end ≡ false
      → probe (suc fuel) vmaid size (r ∷ []) old
        ≡ probe fuel vmaid size (record r { rg_start = r.rg_end } ∷ []) (fitted old size r)
  unfolding probe
  probe-exact fuel r old t1 t2 t3 = rw (t1, t2, t3)

  abbrev Outcome : (fuel : ℕ) (rs : List Region) (old : Region) → Type 0
  Outcome fuel rs old =
      (p : Probe) × (probe fuel vmaid size rs old ≡ some p) × Searched vmaid (sext size) rs old p

  probe-one :
      (fuel : ℕ) (r old : Region)
      → r.rg_start + sext size < 2 ^ 64
      → r.rg_end + sext size < 2 ^ 64
      → Outcome (suc (suc (suc fuel))) (r ∷ []) old
  unfolding probe behind
  probe-one fuel r old wrap wrap_end =
      let used = record r { rg_start = r.rg_end } in
      elim (tests r wrap) [
        | other ne t ↦ (record { newrg = old; freerg = r ∷ [] }, rw t refl, nothing (inl ne))
        | inside t1 t2 t3 f ↦ (
          record {
            newrg = fitted old size r;
            freerg = record r { rg_start = u64 (r.rg_start + sext size) } ∷ [];
          },
          rw (t1, t2, t3) refl,
          fit _ (inl (f, refl, omega arith)) (λ x. omega (arith, fitted-splits r old f wrap x)),
        )
        | exact t1 t2 t3 f ↦ (
          record { newrg = fitted old size r; freerg = used ∷ [] },
          probe-exact (suc (suc fuel)) r old t1 t2 t3
              ∙ probe-used fuel used (fitted old size r) wrap_end refl,
          fit _ (inl (f, refl, omega arith)) (λ x. ground (arith, fitted-covers r old f wrap x)),
        )
        | short t1 t2 f ↦
            (record { newrg = old; freerg = r ∷ [] }, rw (t1, t2) refl, nothing (inr (f, tt)))
      ]

  pub probe-Searched :
      (fuel : ℕ) (rs : List Region) (old : Region)
      → length rs + 2 ≤ fuel
      → NoWrap (sext size) rs
      → Outcome fuel rs old
  unfolding probe behind
  probe-Searched zero rs old enough wrap = absurd (omega arith)
  probe-Searched (suc fuel) [] old enough wrap =
      (record { newrg = old; freerg = [] }, refl, nothing tt)
  probe-Searched (suc zero) (r ∷ []) old enough wrap = absurd (omega arith)
  probe-Searched (suc (suc zero)) (r ∷ []) old enough wrap = absurd (omega arith)
  probe-Searched (suc (suc (suc fuel))) (r ∷ []) old enough wrap =
      probe-one fuel r old wrap.0.0 wrap.0.1
  probe-Searched (suc fuel) (r ∷ n ∷ rest) old enough wrap =
      let used = record r { rg_start = n.rg_start; rg_end = n.rg_end } in
      let (p, e, s) = probe-Searched fuel (n ∷ rest) old (omega arith) wrap.1 in
      let (p', e', s') =
        probe-Searched fuel (used ∷ rest) (fitted old size r) (omega arith) (wrap.1.0, wrap.1.1) in
      elim (tests r wrap.0.0) [
        | other ne t ↦ (record { newrg = old; freerg = r ∷ n ∷ rest }, rw t refl, nothing (inl ne))
        | inside t1 t2 t3 f ↦ (
          record {
            newrg = fitted old size r;
            freerg = record r { rg_start = u64 (r.rg_start + sext size) } ∷ n ∷ rest;
          },
          rw (t1, t2, t3) refl,
          fit _ (inl (f, refl, omega arith)) (λ x. omega (arith, fitted-splits r old f wrap.0.0 x)),
        )
        | exact t1 t2 t3 f ↦ (
          p',
          rw (t1, t2, t3) e',
          Searched-exact r (n ∷ rest) (used ∷ rest) old p' f wrap.0.0 (λ new taken. inr taken)
              (λ x. omega arith) s',
        )
        | short t1 t2 f ↦ (behind r p, rw (t1, t2, e) refl, Searched-behind r (n ∷ rest) old p f s)
      ]
