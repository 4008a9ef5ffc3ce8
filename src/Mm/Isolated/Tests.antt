-- ===== src/Mm/Isolated/Tests.antt =====
-- A machine with four frames, and three calls of two processes, the second for more than are left.
use simple_32bit_os.Base.{◌≡◌, refl, some, List, [], ◌∷◌, arith}
use simple_32bit_os.Pte.Arithmetic.{addr_pgn_lem}
use simple_32bit_os.Memphy.{Memphy, frames_from}
use simple_32bit_os.Mm.Isolated.Requests.{
  Spaces, Request, map_all, Isolated, nothing_present-Isolated, map_all-Isolated,
}

abbrev four_frames : Memphy
four_frames = record {
  storage = λ a. 0;
  maxsz = 1024;
  rdmflg = 1;
  cursor = 0;
  free_fp_list = frames_from 4 0;
}

abbrev empty_spaces : Spaces
empty_spaces = record {
  mm = λ p. record { pgd = λ i. 0; mmap = []; symrgtbl = []; fifo_pgn = [] };
  mram = four_frames;
  active_mswp = four_frames;
}

abbrev requests : List Request
requests =
    record { process = 0; mapstart = 256; incpgnum = 2 }
    ∷ record { process = 1; mapstart = 0; incpgnum = 3 }
    ∷ record { process = 0; mapstart = 1024; incpgnum = 1 }
    ∷ []

map_all-Isolated_example :
    (after : Spaces) × (map_all requests empty_spaces ≡ some after) × Isolated after
map_all-Isolated_example =
    map_all-Isolated requests empty_spaces
      (
        omega (arith, addr_pgn_lem 256 (omega arith)),
        (
          omega (arith, addr_pgn_lem 0 (omega arith)),
          (omega (arith, addr_pgn_lem 1024 (omega arith)), tt),
        ),
      )
      (nothing_present-Isolated empty_spaces 4 (omega arith) (λ p i. refl) refl)
