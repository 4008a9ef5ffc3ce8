-- ===== src/Queue/Order.antt =====
-- `dequeue` of queue.c takes the first process of the lowest `priority` number.
use simple_32bit_os.Base.{
  ℕ, zero, suc, ◌+◌, ◌-◌, ◌≤◌, ◌<◌, ◌≡◌, refl, some, List, [], ◌∷◌, arith, get_elem?, get_or, ltb,
  ◌==◌, if◌then◌else◌, Bool-cases, inl, inr, take, get_elem?-eq-get_or, ◌≢◌, ap, sym, ◌∙◌, ==_iff,
}
use simple_32bit_os.Queue.{Ptr, Queue, Best, scan, shift, dequeue}
use simple_32bit_os.Queue.Contents.{
  IsValid, contents, remove_at, take-shift, get_elem?-take, length-shift,
}

module _ (priority : Ptr → ℕ) where
  -- `x` is the first of `xs` with the lowest number, and `ys` is `xs` without it.
  pub record Picks (xs : List Ptr) (x : Ptr) (ys : List Ptr) : Type 0 where
    pub index : ℕ
    pub found : get_elem? xs index ≡ some x
    pub rest : ys ≡ remove_at index xs
    pub earlier : (j : ℕ) (p : Ptr) → get_elem? xs j ≡ some p → j < index → priority x < priority p
    pub least : (j : ℕ) (p : Ptr) → get_elem? xs j ≡ some p → priority x ≤ priority p

  -- What the first loop knows of the slots below `lo`.
  record IsBest (proc : List Ptr) (lo : ℕ) (b : Best) : Type 0 where
    at_index : b.highest ≡ get_or proc b.highest_index 0
    below : b.highest_index < lo
    earlier : (j : ℕ) → j < b.highest_index → priority b.highest < priority (get_or proc j 0)
    least : (j : ℕ) → j < lo → priority b.highest ≤ priority (get_or proc j 0)

  IsBest-step :
      (proc : List Ptr) (i : ℕ) (b : Best)
      → IsBest proc i b
      → IsBest proc (suc i) (
          if ltb (priority (get_or proc i 0)) (priority b.highest)
          then record { highest = get_or proc i 0; highest_index = i }
          else b)
  IsBest-step proc i b h =
      elim (Bool-cases (ltb (priority (get_or proc i 0)) (priority b.highest))) [
        | inl lower ↦ rw lower (record {
          at_index = refl;
          below = omega arith;
          earlier = λ j p. ground (arith, h.least j);
          least = λ j p. ground (arith, h.least j);
        })
        | inr not ↦ rw not (record {
          at_index = h.at_index;
          below = ground arith;
          earlier = h.earlier;
          least = λ j p. ground (arith, h.least j);
        })
      ]

  scan-IsBest :
      (n i m : ℕ) (proc : List Ptr) (b : Best)
      → n + i ≡ m
      → IsBest proc i b
      → IsBest proc m (scan priority n proc i b)
  unfolding scan
  scan-IsBest zero i m proc b e h = let e' : i ≡ m = omega arith in rw (← e') h
  scan-IsBest (suc n) i m proc b e h =
      scan-IsBest n (suc i) m proc _ (omega arith) (IsBest-step proc i b h)

  get_elem?-take-eq :
      (n j : ℕ) (xs : List Ptr) (p : Ptr)
      → get_elem? (take n xs) j ≡ some p
      → (j < n) × (p ≡ get_or xs j 0)
  get_elem?-take-eq zero j xs p e = cc
  get_elem?-take-eq (suc n) j [] p e = cc
  get_elem?-take-eq (suc n) zero (x ∷ xs) p e = (omega arith, cc)
  get_elem?-take-eq (suc n) (suc j) (x ∷ xs) p e =
      let r = get_elem?-take-eq n j xs p e in (omega arith, r.1)

  first : Queue → Best
  first q = record { highest = get_or q.proc 0 0; highest_index = 0 }

  chosen : Queue → Best
  unfolding first
  chosen q = scan priority (q.size - 1) q.proc 1 (first q)

  chosen-IsBest : (q : Queue) → q.size ≢ 0 → IsBest q.proc q.size (chosen q)
  unfolding chosen
  chosen-IsBest q ne = scan-IsBest (q.size - 1) 1 q.size q.proc _ (omega arith) (record {
    at_index = refl;
    below = omega arith;
    earlier = λ j p. absurd (omega arith);
    least = λ j p. ground arith;
  })

  left : Queue → Queue
  left q =
      let b = chosen q in
      record {
        proc = shift (q.size - 1 - b.highest_index) q.proc b.highest_index;
        size = q.size - 1;
      }

  dequeue-chosen :
      (q : Queue)
      → q.size ≢ 0
      → dequeue priority (some q) ≡ (some (chosen q).highest, some (left q))
  unfolding dequeue chosen left
  dequeue-chosen q ne = elim (Bool-cases (q.size == 0)) [
    | inl no_process ↦ absurd (ne ((==_iff q.size 0).0 no_process))
    | inr not ↦ rw not
  ]

  left-contents :
      (q : Queue)
      → IsValid q
      → q.size ≢ 0
      → contents (left q) ≡ remove_at (chosen q).highest_index (contents q)
  unfolding left
  left-contents q v ne =
      let h = chosen-IsBest q ne in
      let below : (chosen q).highest_index < q.size = h.below in
      take-shift (q.size - 1 - (chosen q).highest_index) (chosen q).highest_index (q.size - 1)
        q.proc (omega arith) (omega arith)
      ∙ ap (λ n. remove_at (chosen q).highest_index (take n q.proc)) {x = suc (q.size - 1)}
          (omega arith)

  chosen-Picks :
      (q : Queue)
      → IsValid q
      → q.size ≢ 0
      → Picks (contents q) (chosen q).highest (contents (left q))
  chosen-Picks q v ne = record {
    index = (chosen q).highest_index;
    found =
        get_elem?-take q.size _ q.proc h.below
        ∙ get_elem?-eq-get_or q.proc _ 0 (omega (arith, h.below))
        ∙ ap some (sym h.at_index);
    rest = left-contents q v ne;
    earlier = λ j p e lt. let r = get_elem?-take-eq q.size j q.proc p e in rw r.1 (h.earlier j lt);
    least = λ j p e. let r = get_elem?-take-eq q.size j q.proc p e in rw r.1 (h.least j r.0);
  }
    where
      h : IsBest q.proc q.size (chosen q)
      h = chosen-IsBest q ne

  left-IsValid : (q : Queue) → IsValid q → IsValid (left q)
  unfolding left
  left-IsValid q v =
      omega (
        arith,
        length-shift (q.size - 1 - (chosen q).highest_index) (chosen q).highest_index q.proc,
      )

  -- A valid queue that is not empty gives up the first of its processes of the lowest `priority`
  -- number, keeps the others in their order, is one shorter, and stays valid.
  pub dequeue-Picks :
      {q : Queue}
      → IsValid q
      → q.size ≢ 0
      → (x : Ptr) × (q' : Queue) × (dequeue priority (some q) ≡ (some x, some q'))
        × Picks (contents q) x (contents q')
        × IsValid q'
        × (q.size ≡ suc q'.size)
  dequeue-Picks {q} v ne = (
    (chosen q).highest,
    left q,
    dequeue-chosen q ne,
    chosen-Picks q v ne,
    left-IsValid q v,
    unfold left in omega arith,
  )
