-- ===== src/Bits.antt =====
-- `&` and `|` with a mask of adjacent ones, as arithmetic: a word is cut at a position into a high
-- and a low part, and the operations work on each part by itself.
use Prim.Native.Nat.{min, max, digits, bitwise, bit_and-bitwise, bit_or-bitwise}
use native.Mathlib.Nat.{pow-suc, one-le-pow, le_refl}
use simple_32bit_os.Base.{
  ℕ, zero, suc, ◌+◌, ◌-◌, ◌*◌, ◌/◌, ◌%◌, ◌^◌, ◌≤◌, ◌<◌, ◌≡◌, refl, ap, ap₂, ◌∙◌, arith, bit_and,
  bit_or,
}

-- The digit recursion that the native operations stand for does not depend on its fuel.
module _ (rest : ℕ → ℕ) (digit : ℕ → ℕ → ℕ) where
  fuel-irrelevant :
      (n m a b : ℕ) → a ≤ n → a ≤ m → digits rest digit n a b ≡ digits rest digit m a b
  fuel-irrelevant n m zero b p q = both_zero n m b
    where
      both_zero : (n m b : ℕ) → digits rest digit n 0 b ≡ digits rest digit m 0 b
      both_zero zero zero b = refl
      both_zero zero (suc m) b = refl
      both_zero (suc n) zero b = refl
      both_zero (suc n) (suc m) b = refl
  fuel-irrelevant zero m (suc a) b p q = absurd (omega arith)
  fuel-irrelevant (suc n) zero (suc a) b p q = absurd (omega arith)
  fuel-irrelevant (suc n) (suc m) (suc a) b p q =
      ap (λ (t : ℕ). t * 2 + digit (suc a % 2) (b % 2))
        (fuel-irrelevant n m (suc a / 2) (b / 2) (omega arith) (omega arith))

  bitwise-digit :
      (a b : ℕ)
      → bitwise rest digit (suc a) b
        ≡ bitwise rest digit (suc a / 2) (b / 2) * 2 + digit (suc a % 2) (b % 2)
  bitwise-digit a b =
      ap (λ (t : ℕ). t * 2 + digit (suc a % 2) (b % 2))
        (fuel-irrelevant a (suc a / 2) (suc a / 2) (b / 2) (omega arith) (le_refl _))

-- The lowest digit of each operation.
and-digit : (a b : ℕ) → bit_and a b ≡ bit_and (a / 2) (b / 2) * 2 + min (a % 2) (b % 2)
and-digit zero b = simp bit_and-bitwise (omega arith)
and-digit (suc a) b = simp bit_and-bitwise (bitwise-digit (λ y. 0) min a b)

or-digit : (a b : ℕ) → bit_or a b ≡ bit_or (a / 2) (b / 2) * 2 + max (a % 2) (b % 2)
or-digit zero b = simp bit_or-bitwise (omega arith)
or-digit (suc a) b = simp bit_or-bitwise (bitwise-digit (λ y. y) max a b)

-- What the other half of a mask does: 0 on either side.
pub and-zero : (k a : ℕ) → a < 2 ^ k → bit_and a 0 ≡ 0
and-zero zero a h = let e : a ≡ 0 = omega arith in rw e
and-zero (suc k) a h =
    omega (arith, and-digit a 0, pow-suc 2 k, and-zero k (a / 2) (omega (arith, pow-suc 2 k)))

pub or-zero : (k a : ℕ) → a < 2 ^ k → bit_or a 0 ≡ a
or-zero zero a h = let e : a ≡ 0 = omega arith in rw e
or-zero (suc k) a h =
    omega (arith, or-digit a 0, pow-suc 2 k, or-zero k (a / 2) (omega (arith, pow-suc 2 k)))

lt-two-pow : (n : ℕ) → n < 2 ^ n
lt-two-pow zero = omega arith
lt-two-pow (suc n) = omega (arith, pow-suc 2 n, lt-two-pow n)

mul-pow-suc : (q k : ℕ) → q * 2 ^ suc k ≡ 2 * (q * 2 ^ k)
mul-pow-suc q k = omega (arith, ap (λ (t : ℕ). q * t) (pow-suc 2 k))

-- Cutting both words at position `k`.
pub and-cut :
    (k q r q' r' : ℕ)
    → r < 2 ^ k
    → r' < 2 ^ k
    → bit_and (q * 2 ^ k + r) (q' * 2 ^ k + r') ≡ bit_and q q' * 2 ^ k + bit_and r r'
and-cut zero q r q' r' h h' =
    let e : r ≡ 0 = omega arith in
    let e' : r' ≡ 0 = omega arith in
    rw (e, e')
      (ap₂ bit_and {x = q * 1 + 0} {y = q} {u = q' * 1 + 0} {v = q'} (omega arith) (omega arith)
        ∙ omega arith)
and-cut (suc k) q r q' r' h h' = ground (
  arith,
  pow-suc 2 k,
  mul-pow-suc q k,
  mul-pow-suc q' k,
  mul-pow-suc (bit_and q q') k,
  and-digit (q * 2 ^ suc k + r) (q' * 2 ^ suc k + r'),
  and-digit r r',
  and-cut k q (r / 2) q' (r' / 2),
)

pub or-cut :
    (k q r q' r' : ℕ)
    → r < 2 ^ k
    → r' < 2 ^ k
    → bit_or (q * 2 ^ k + r) (q' * 2 ^ k + r') ≡ bit_or q q' * 2 ^ k + bit_or r r'
or-cut zero q r q' r' h h' =
    let e : r ≡ 0 = omega arith in
    let e' : r' ≡ 0 = omega arith in
    rw (e, e')
      (ap₂ bit_or {x = q * 1 + 0} {y = q} {u = q' * 1 + 0} {v = q'} (omega arith) (omega arith)
        ∙ omega arith)
or-cut (suc k) q r q' r' h h' = ground (
  arith,
  pow-suc 2 k,
  mul-pow-suc q k,
  mul-pow-suc q' k,
  mul-pow-suc (bit_or q q') k,
  or-digit (q * 2 ^ suc k + r) (q' * 2 ^ suc k + r'),
  or-digit r r',
  or-cut k q (r / 2) q' (r' / 2),
)

pub and-full : (k r : ℕ) → r < 2 ^ k → bit_and r (2 ^ k - 1) ≡ r
and-full zero r h = let e : r ≡ 0 = omega arith in rw e
and-full (suc k) r h =
    ground (arith, pow-suc 2 k, one-le-pow k 2, and-digit r (2 ^ suc k - 1), and-full k (r / 2))

-- A mask of `k` ones keeps the low part.
pub and-ones : (k q r : ℕ) → r < 2 ^ k → bit_and (q * 2 ^ k + r) (2 ^ k - 1) ≡ r
and-ones k q r h =
    ground (
      arith,
      one-le-pow k 2,
      and-cut k q r 0 (2 ^ k - 1),
      and-zero q q (lt-two-pow q),
      and-full k r,
    )

pub zero-or : (b : ℕ) → bit_or 0 b ≡ b
zero-or b = simp bit_or-bitwise

-- A word in three parts: `c` is the `k` lowest bits, `b` the field of `w` bits above them, and `a`
-- the rest. `mask` is given by its parts too.
module _ (v mask k w a b c : ℕ) (parts : v ≡ (a * 2 ^ w + b) * 2 ^ k + c) (hb : b < 2 ^ w)
    (hc : c < 2 ^ k) where
  -- `v & mask` with ones in the field.
  pub and-field : mask ≡ (2 ^ w - 1) * 2 ^ k + 0 → bit_and v mask ≡ b * 2 ^ k
  and-field e =
      rw
        (
          parts,
          e,
          and-cut k (a * 2 ^ w + b) c (2 ^ w - 1) 0 hc (one-le-pow k 2 (omega arith)),
          and-ones w a b hb,
          and-zero k c hc,
        )
        (omega arith)

  -- `v & ~mask` with ones in the field, in a word of `h` more bits.
  pub and-clear :
      (h : ℕ)
      → a < 2 ^ h
      → mask ≡ ((2 ^ h - 1) * 2 ^ w + 0) * 2 ^ k + (2 ^ k - 1)
      → bit_and v mask ≡ a * 2 ^ w * 2 ^ k + c
  and-clear h ha e =
      rw
        (
          parts,
          e,
          and-cut k (a * 2 ^ w + b) c ((2 ^ h - 1) * 2 ^ w + 0) (2 ^ k - 1) hc
              (omega (arith, one-le-pow k 2)),
          and-cut w a b (2 ^ h - 1) 0 hb (one-le-pow w 2 (omega arith)),
          and-full h a ha,
          and-zero w b hb,
          and-full k c hc,
        )
        (omega arith)

  -- `v | mask` where the field of `v` is clear and `mask` has only the field.
  pub or-field :
      (f : ℕ)
      → f < 2 ^ w
      → b ≡ 0
      → mask ≡ (0 * 2 ^ w + f) * 2 ^ k + 0
      → bit_or v mask ≡ (a * 2 ^ w + f) * 2 ^ k + c
  or-field f hf clear e = rw (
    parts,
    e,
    clear,
    or-cut k (a * 2 ^ w + 0) c (0 * 2 ^ w + f) 0 hc (one-le-pow k 2 (omega arith)),
    or-cut w a 0 0 f (one-le-pow w 2 (omega arith)) hf,
    or-zero a a (lt-two-pow a),
    zero-or f,
    or-zero k c hc,
  )

or-one : (b : ℕ) → b < 2 → bit_or b 1 ≡ 1
or-one zero h = refl
or-one (suc zero) h = refl
or-one (suc (suc b)) h = absurd (omega arith)

-- `v | mask` with the one bit `k`, which may be set already.
pub or-bit :
    (v mask k a b c : ℕ)
    → v ≡ (a * 2 ^ 1 + b) * 2 ^ k + c
    → b < 2
    → c < 2 ^ k
    → mask ≡ (0 * 2 ^ 1 + 1) * 2 ^ k + 0
    → bit_or v mask ≡ (a * 2 ^ 1 + 1) * 2 ^ k + c
or-bit v mask k a b c parts hb hc e = rw (
  parts,
  e,
  or-cut k (a * 2 ^ 1 + b) c (0 * 2 ^ 1 + 1) 0 hc (one-le-pow k 2 (omega arith)),
  or-cut 1 a b 0 1 hb (omega arith),
  or-zero a a (lt-two-pow a),
  or-one b hb,
  or-zero k c hc,
)
