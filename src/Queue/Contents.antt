-- ===== src/Queue/Contents.antt =====
-- The processes that a queue of queue.c holds, oldest first, and its array invariant.
use simple_32bit_os.Base.{
  get_elem?, leb, if◌then◌else◌, Bool-cases, inl, inr, ℕ, zero, suc, ◌+◌, ◌≤◌, ◌<◌, some, ◌≡◌, refl,
  ap, some, List, [], ◌∷◌, ◌++◌, arith, length, get_or, set, take, length-set,
}
use simple_32bit_os.Queue.{Ptr, max_queue_size, Queue, enqueue, shift}

-- The array has its ten slots, and `size` counts some of them.
pub record IsValid (q : Queue) : Type 0 where
  pub slots : length q.proc ≡ max_queue_size
  pub bounded : q.size ≤ max_queue_size

abbrev pub contents : Queue → List Ptr
contents q = take q.size q.proc

take-set :
    (n : ℕ) (xs : List Ptr) (p : Ptr)
    → n < length xs
    → take (suc n) (set xs n p) ≡ take n xs ++ (p ∷ [])
take-set n [] p h = absurd (omega arith)
take-set zero (x ∷ xs) p h = refl
take-set (suc n) (x ∷ xs) p h = ap (λ ys. x ∷ ys) (take-set n xs p (omega arith))

-- The list without its element at an index.
abbrev pub remove_at : ℕ → List Ptr → List Ptr
remove_at i [] = []
remove_at zero (x ∷ xs) = xs
remove_at (suc i) (x ∷ xs) = x ∷ remove_at i xs

shift-cons : (n i : ℕ) (x : Ptr) (xs : List Ptr) → shift n (x ∷ xs) (suc i) ≡ x ∷ shift n xs i
unfolding shift
shift-cons zero i x xs = refl
shift-cons (suc n) i x xs = shift-cons n (suc i) x (set xs i (get_or xs (suc i) 0))

pub length-shift : (n i : ℕ) (xs : List Ptr) → length (shift n xs i) ≡ length xs
unfolding shift
length-shift zero i xs = refl
length-shift (suc n) i xs =
    omega (arith, length-shift n (suc i) (set xs i (get_or xs (suc i) 0)), length-set xs i)

take-shift-zero :
    (n : ℕ) (x : Ptr) (xs : List Ptr) → n ≤ length xs → take n (shift n (x ∷ xs) 0) ≡ take n xs
unfolding shift
take-shift-zero zero x xs h = refl
take-shift-zero (suc n) x [] h = absurd (omega arith)
take-shift-zero (suc n) x (y ∷ ys) h =
    rw (shift-cons n 0 y (y ∷ ys)) (ap (λ zs. y ∷ zs) (take-shift-zero n y ys (omega arith)))

-- The second loop of `dequeue` removes the element at index `i` from the first `m + 1`.
pub take-shift :
    (n i m : ℕ) (xs : List Ptr)
    → n + i ≡ m
    → suc m ≤ length xs
    → take m (shift n xs i) ≡ remove_at i (take (suc m) xs)
take-shift n i m [] e h = absurd (omega arith)
take-shift n zero m (x ∷ xs) e h =
    let e' : n ≡ m = omega arith in rw e' (take-shift-zero m x xs (omega arith))
take-shift n (suc i) zero (x ∷ xs) e h = absurd (omega arith)
take-shift n (suc i) (suc m) (x ∷ xs) e h =
    rw (shift-cons n i x xs) (ap (λ zs. x ∷ zs) (take-shift n i m xs (omega arith) (omega arith)))

pub get_elem?-take : (n i : ℕ) (xs : List Ptr) → i < n → get_elem? (take n xs) i ≡ get_elem? xs i
get_elem?-take zero i xs h = absurd (omega arith)
get_elem?-take (suc n) i [] h = refl
get_elem?-take (suc n) zero (x ∷ xs) h = refl
get_elem?-take (suc n) (suc i) (x ∷ xs) h = get_elem?-take n i xs (omega arith)

-- `enqueue` leaves a valid queue valid: with the process behind the others, or with the same
-- processes if it is full.
pub enqueue-contents :
    {q : Queue} (p : Ptr)
    → IsValid q
    → (q' : Queue) × (enqueue (some q) (some p) ≡ some q')
      × IsValid q'
      × (contents q' ≡ (if leb max_queue_size q.size then contents q else contents q ++ (p ∷ [])))
unfolding enqueue
enqueue-contents {q} p v = elim (Bool-cases (leb max_queue_size q.size)) [
  | inl full ↦ (q, rw full, v, rw full)
  | inr room ↦ (
    record { proc = set q.proc q.size p; size = suc q.size },
    rw room,
    ground (arith, length-set q.proc q.size p),
    rw room (take-set q.size q.proc p (ground arith)),
  )
]

pub get_elem?-remove_at :
    (i j : ℕ) (xs : List Ptr) (p : Ptr)
    → get_elem? (remove_at i xs) j ≡ some p
    → (k : ℕ) × (get_elem? xs k ≡ some p)
get_elem?-remove_at i j [] p e = cc
get_elem?-remove_at zero j (x ∷ xs) p e = (suc j, e)
get_elem?-remove_at (suc i) zero (x ∷ xs) p e = (0, e)
get_elem?-remove_at (suc i) (suc j) (x ∷ xs) p e =
    let r = get_elem?-remove_at i j xs p e in (suc r.0, r.1)
