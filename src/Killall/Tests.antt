-- ===== src/Killall/Tests.antt =====
-- Runs of `__sys_killall` by process 3, which looks for "input/proc/a".
use simple_32bit_os.Base.{
  ℕ, ◌≡◌, ◌<◌, refl, some, [], ◌∷◌, ◌++◌, ◌==◌, if◌then◌else◌, arith, Option, List, ◌≢◌, get_elem?,
}
use simple_32bit_os.Queue.{Ptr}
use simple_32bit_os.Process.{QueueRef}
use simple_32bit_os.Sched.{priority_of}
use simple_32bit_os.System.{queue_at, any_freed}
use simple_32bit_os.System.Tests.{machine, three, block}
use simple_32bit_os.Killall.{Killed, kill_in, is_kept, end_program, proc_dir}
use simple_32bit_os.Killall.Live.{Live}
use simple_32bit_os.Killall.Blocked.{IsLowest, Unharmed, kill_in-blocked}
use simple_32bit_os.Killall.Select.{Swept, AllAt, kept_of}
use simple_32bit_os.Killall.Sweep.{kill_in-Swept}

abbrev name : List ℕ
name = proc_dir ++ (97 ∷ [])

abbrev start : (Ptr → ℕ) → Killed
start priority = record { system = machine priority; killed_count = 0 }

abbrev running : Option QueueRef
running = some QueueRef.running

machine-Live : (priority : Ptr → ℕ) → Live (machine priority) running (1 ∷ 2 ∷ 3 ∷ [])
unfolding queue_at any_freed
machine-Live priority = record {
  queue = three;
  there = refl;
  valid = record { slots = refl; bounded = omega arith };
  holds = refl;
  alive = refl;
}

-- Process 1 has priority 0, the others 1.
abbrev lower : Ptr → ℕ
lower p = if p == 1 then 0 else 1

lower-IsLowest : IsLowest (priority_of (machine lower).sched) (1 ∷ 2 ∷ 3 ∷ []) 1
unfolding priority_of
lower-IsLowest = record { index = 0; found = refl; lower = others }
  where
    others :
        (j : ℕ) (p : Ptr)
        → get_elem? (1 ∷ 2 ∷ 3 ∷ []) j ≡ some p
        → p ≢ 1
        → priority_of (machine lower).sched 1 < priority_of (machine lower).sched p
    others j p e ne = ground arith

kill_in-blocked_example :
    Unharmed end_program running 3 name
      (start lower)
      (1 ∷ 2 ∷ 3 ∷ [])
      1
      3
      (kill_in end_program running 3 name (start lower))
unfolding is_kept
kill_in-blocked_example =
    kill_in-blocked end_program running 3 name (start lower) (1 ∷ 2 ∷ 3 ∷ []) 1 (machine-Live lower)
      lower-IsLowest refl

same_priority : AllAt (machine (λ p. 1)).sched.heap 1 (1 ∷ 2 ∷ 3 ∷ [])
same_priority j p e = refl

kill_in-Swept_example :
    (k' : Killed) × (kill_in end_program running 3 name (start λ p. 1) ≡ some k')
    × Swept (start λ p. 1) running (kept_of 3 name (block λ p. 1)) (1 ∷ 2 ∷ 3 ∷ []) [] k'
kill_in-Swept_example =
    kill_in-Swept running 3 name (start λ p. 1) (1 ∷ 2 ∷ 3 ∷ []) 1 (machine-Live λ p. 1)
      same_priority
