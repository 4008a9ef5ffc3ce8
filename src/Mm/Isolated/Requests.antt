-- ===== src/Mm/Isolated/Requests.antt =====
-- `vm_map_ram` called for several processes in any order, on one RAM.
use simple_32bit_os.Base.{
  ℕ, zero, suc, ◌+◌, ◌≤◌, ◌^◌, ◌≡◌, inl, inr, refl, sym, ap, subst, ◌∙◌, some, List, [], ◌∷◌, arith,
  Option, ◌≢◌, none, minus_one, ◌>>=◌, true, false, length, leb, ltb, ◌&&◌, if◌then◌else◌, ==_iff,
  Bool-cases, All, count,
}
use simple_32bit_os.Pte.{max_pgn, addr_pgn, page_present}
use simple_32bit_os.Memphy.{Memphy, frames_from}
use simple_32bit_os.Memory.{Mm, Caller}
use simple_32bit_os.Queue.{Ptr}
use simple_32bit_os.Mm.{Mapped, vm_map_ram}
use simple_32bit_os.Mm.Alloc.{with_free}
use simple_32bit_os.Mm.Map.{mapped_result, vm_map_ram-Maps, vm_map_ram-short}
use simple_32bit_os.Mm.Isolated.{IsIsolated, with_space}
use simple_32bit_os.Mm.Isolated.Keeps.{Keeps, Keeps-none, Keeps-Maps}

-- The address spaces of the processes, and their devices.
pub record Spaces : Type 0 where
  pub mm : Ptr → Mm
  pub mram : Memphy
  pub active_mswp : Memphy

-- A call of `vm_map_ram` by a process.
pub record Request : Type 0 where
  pub process : Ptr
  pub mapstart : ℕ
  pub incpgnum : ℕ

abbrev pub caller_of : Spaces → Ptr → Caller
caller_of s p = record { mm = s.mm p; mram = s.mram; active_mswp = s.active_mswp }

abbrev pub after_call : Spaces → Ptr → Caller → Spaces
after_call s p c = record {
  mm = with_space s.mm p c.mm;
  mram = c.mram;
  active_mswp = c.active_mswp;
}

abbrev pub map_all : List Request → Spaces → Option Spaces
map_all [] s = some s
map_all (r ∷ rs) s = do
  out ← vm_map_ram (caller_of s r.process) 0 0 r.mapstart r.incpgnum
  map_all rs (after_call s r.process out.caller)

-- The pages of a request are in the page table.
abbrev pub InTable : Request → Type 0
InTable r = addr_pgn r.mapstart + r.incpgnum ≤ max_pgn

abbrev pub Isolated : Spaces → Type 0
Isolated s = IsIsolated s.mm s.mram.free_fp_list

vm_map_ram-Keeps :
    (c : Caller) (mapstart n : ℕ)
    → addr_pgn mapstart + n ≤ max_pgn
    → (out : Mapped) × (vm_map_ram c 0 0 mapstart n ≡ some out) × Keeps c out.caller
vm_map_ram-Keeps c mapstart n inside = elim (Bool-cases (leb n (length c.mram.free_fp_list))) [
  | inl enough ↦
      let (mm', e, maps) = vm_map_ram-Maps c 0 0 mapstart n (ground arith) inside in
      (
        mapped_result c mm' mapstart n,
        e,
        Keeps-Maps c mm' (addr_pgn mapstart) n (ground arith) maps,
      )
  | inr short ↦ (
    record { result = minus_one; caller = record c { mram = with_free c.mram [] }; ret_rg = none },
    vm_map_ram-short c 0 0 mapstart n (omega arith) (ground arith),
    Keeps-none refl refl,
  )
]

-- The frames are isolated when the free ones are distinct and have 13 bits, two present pages, of one
-- process or of two, have two frames, and none of these is free; the page table entries are words. If
-- that holds, and any processes call `vm_map_ram` in any order, for pages of the page table, then every
-- call returns, whether or not there are enough frames for it, and the frames stay isolated.
pub map_all-Isolated :
    (rs : List Request) (s : Spaces)
    → All InTable rs
    → Isolated s
    → (after : Spaces) × (map_all rs s ≡ some after) × Isolated after
map_all-Isolated [] s inside is = (s, refl, is)
map_all-Isolated (r ∷ rs) s (inside, more) is =
    let (out, e, keeps) = vm_map_ram-Keeps (caller_of s r.process) r.mapstart r.incpgnum inside in
    let (after, e', is'') =
      map_all-Isolated rs (after_call s r.process out.caller) more
        (keeps.spaces s.mm r.process refl is) in
    (after, rw (e, e') refl, is'')

count-frames_from :
    (f n first : ℕ)
    → count f (frames_from n first) ≡ (if leb first f && ltb f (first + n) then 1 else 0)
unfolding frames_from
count-frames_from f zero first = ground arith
count-frames_from f (suc n) first =
    ground (arith, count-frames_from f n (suc first), ==_iff first f)

not_there : page_present 0 ≢ true
unfolding page_present
not_there e = let no : page_present 0 ≡ false = refl in absurd (ground arith)

-- No page is present, and all `n` frames are free: a machine that has just started.
pub nothing_present-Isolated :
    (s : Spaces) (n : ℕ)
    → n ≤ 2 ^ 13
    → ((p : Ptr) (i : ℕ) → (s.mm p).pgd i ≡ 0)
    → s.mram.free_fp_list ≡ frames_from n 0
    → Isolated s
nothing_present-Isolated s n small empty all_free =
    let absent = λ (p : Ptr) (i : ℕ) (v : page_present ((s.mm p).pgd i) ≡ true).
      not_there (ap page_present (sym (empty p i)) ∙ v) in
    record {
      once = λ f. rw all_free (ground (arith, count-frames_from f n 0));
      small = λ f h.
          let there : 1 ≤ count f (frames_from n 0) = subst (λ xs. 1 ≤ count f xs) all_free h in
          ground (arith, count-frames_from f n 0);
      words = λ p i. rw (empty p i) (omega arith);
      apart = λ p q i j v v' e. absurd (absent p i v.1);
      taken = λ p i v. absurd (absent p i v.1);
    }
