-- ===== src/Base/Count.antt =====
-- How often a number is in a list.
use Prim.Native.Nat.{ℕ, zero, suc, ◌+◌, ◌≤◌, ◌<◌}
use mathlib.Core.Path.{◌≡◌, refl}
use mathlib.Core.List.{List, [], ◌∷◌, reverse, reverse_aux}
use native.Mathlib.Omega.{arith}
use simple_32bit_os.Base.Tests.{◌==◌, if◌then◌else◌, ==_self}
use simple_32bit_os.Base.Lists.{get_or, take, drop, length}

abbrev pub count : ℕ → List ℕ → ℕ
count f [] = 0
count f (x ∷ xs) = (if x == f then 1 else 0) + count f xs

pub count-take : (f n : ℕ) (xs : List ℕ) → count f (take n xs) + count f (drop n xs) ≡ count f xs
count-take f zero xs = omega arith
count-take f (suc n) [] = refl
count-take f (suc n) (x ∷ xs) = omega (arith, count-take f n xs)

count-reverse_aux : (f : ℕ) (xs ys : List ℕ) → count f (reverse_aux xs ys) ≡ count f xs + count f ys
count-reverse_aux f [] ys = omega arith
count-reverse_aux f (x ∷ xs) ys = omega (arith, count-reverse_aux f xs (x ∷ ys))

pub count-reverse : (f : ℕ) (xs : List ℕ) → count f (reverse xs) ≡ count f xs
count-reverse f xs = omega (arith, count-reverse_aux f xs [])

pub count-get_or : (xs : List ℕ) (i : ℕ) → i < length xs → 1 ≤ count (get_or xs i 0) xs
count-get_or [] i h = absurd (omega arith)
count-get_or (x ∷ xs) zero h = ground (arith, ==_self x)
count-get_or (x ∷ xs) (suc i) h = omega (arith, count-get_or xs i (omega arith))

-- An element at two places is counted twice.
pub get_or-injective :
    (xs : List ℕ) (i j : ℕ)
    → i < length xs
    → j < length xs
    → count (get_or xs i 0) xs ≤ 1
    → get_or xs i 0 ≡ get_or xs j 0
    → i ≡ j
get_or-injective [] i j h k once e = absurd (omega arith)
get_or-injective (x ∷ xs) zero zero h k once e = refl
get_or-injective (x ∷ xs) zero (suc j) h k once e =
    let later : 1 ≤ count (get_or xs j 0) xs = count-get_or xs j (omega arith) in
    let again : 1 ≤ count x xs = rw e later in absurd (ground (arith, ==_self x))
get_or-injective (x ∷ xs) (suc i) zero h k once e =
    let later : 1 ≤ count (get_or xs i 0) xs = count-get_or xs i (omega arith) in
    let first : 1 ≤ (if x == get_or xs i 0 then 1 else 0) = rw e (ground (arith, ==_self x)) in
    absurd (omega (arith, first, later))
get_or-injective (x ∷ xs) (suc i) (suc j) h k once e =
    let rest : count (get_or xs i 0) xs ≤ 1 = omega arith in
    let same = get_or-injective xs i j (omega arith) (omega arith) rest e in omega (arith, same)
