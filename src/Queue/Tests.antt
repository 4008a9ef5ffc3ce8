-- ===== src/Queue/Tests.antt =====
-- Runs of queue.c: processes 7, 8 and 9, of which 8 and 9 have priority 1 and 7 has priority 2.
use simple_32bit_os.Base.{ℕ, ◌≡◌, refl, some, [], ◌∷◌, ◌==◌, if◌then◌else◌, arith, suc}
use simple_32bit_os.Queue.{Ptr, Queue, dequeue, scan}
use simple_32bit_os.Queue.Contents.{IsValid, contents}
use simple_32bit_os.Queue.Order.{Picks, dequeue-Picks}

abbrev priority : Ptr → ℕ
priority p = if p == 7 then 2 else 1

abbrev three : Queue
three = record { proc = 7 ∷ 8 ∷ 9 ∷ 0 ∷ 0 ∷ 0 ∷ 0 ∷ 0 ∷ 0 ∷ 0 ∷ []; size = 3 }

three-IsValid : IsValid three
three-IsValid = record { slots = refl; bounded = omega arith }

dequeue-three : (dequeue priority (some three)).0 ≡ some 8
unfolding dequeue scan
dequeue-three = refl

dequeue-Picks_example :
    (x : Ptr) × (q' : Queue) × (dequeue priority (some three) ≡ (some x, some q'))
    × Picks priority (contents three) x (contents q')
    × IsValid q'
    × (3 ≡ suc q'.size)
dequeue-Picks_example = dequeue-Picks priority {q = three} three-IsValid (omega arith)
