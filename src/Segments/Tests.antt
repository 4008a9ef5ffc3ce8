-- ===== src/Segments/Tests.antt =====
-- A process whose first register holds 40.
use simple_32bit_os.Base.{◌≡◌, refl, none, some, [], ◌∷◌}
use simple_32bit_os.Segments.{Ram, Seg, alloc, read, write}
use simple_32bit_os.Segments.Obsolete.{read_fails}

abbrev ram : Ram
ram = record { ram = λ a. 7; mem_stat = λ i. record { proc = 0; index = 0; next = 0 } }

abbrev process : Seg
process = record { regs = 40 ∷ 0 ∷ []; bp = 1024; table_size = 3 }

read_fails_example :
    (alloc process 300 1 ≡ some (1, process))
    × (write ram process 9 0 2 ≡ some (1, ram))
    × (read ram process 0 2 1 ≡ none)
read_fails_example = read_fails ram process 300 1 40 0 2 1 9 refl
