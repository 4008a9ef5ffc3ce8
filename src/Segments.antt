-- ===== src/Segments.antt =====
-- src/mem.c, and the instructions of src/cpu.c that call it: the memory of a build without MM_PAGING.
-- `none` is an access outside an array, or the use of a variable that nobody set. `mem_lock` is held
-- for the whole of `alloc_mem`.
pub mod Obsolete
mod Tests
use simple_32bit_os.Base.{
  ℕ, zero, suc, ◌+◌, ◌-◌, ◌*◌, ◌/◌, ◌%◌, ◌^◌, Bool, true, false, Option, none, some, List, [], ◌∷◌,
  ◌++◌, ◌==◌, not, if◌then◌else◌, ltb, get_elem?, length, set, u32, bit_and, ◌>>=◌,
}

abbrev pub offset_len : ℕ
offset_len = 10

abbrev pub page_len : ℕ
page_len = 5

abbrev pub page_size : ℕ
page_size = 2 ^ 10

abbrev pub num_pages : ℕ
num_pages = 2 ^ 10

abbrev pub ram_size : ℕ
ram_size = 2 ^ 20

-- An element of `_mem_stat`.
pub record MemStat : Type 0 where
  pub proc : ℕ
  pub index : ℕ
  pub next : ℕ

-- The static variables of mem.c.
pub record Ram : Type 0 where
  pub ram : ℕ → ℕ
  pub mem_stat : ℕ → MemStat

-- The fields of `struct pcb_t` that this memory uses; `table_size` is `page_table->size`.
pub record Seg : Type 0 where
  pub regs : List ℕ
  pub bp : ℕ
  pub table_size : ℕ

pub init_mem : Ram → Ram
init_mem m = record {
  ram = λ a. if ltb a ram_size then 0 else m.ram a;
  mem_stat =
      λ i. if ltb i num_pages then record { proc = 0; index = 0; next = 0 } else m.mem_stat i;
}

-- `~x` on `unsigned`
abbrev pub invert : ℕ → ℕ
invert x = 2 ^ 32 - 1 - x

pub get_offset : ℕ → ℕ
get_offset addr = bit_and addr (invert (u32 (invert 0 * 2 ^ offset_len)))

pub get_first_lv : ℕ → ℕ
get_first_lv addr = addr / 2 ^ (offset_len + page_len)

pub get_second_lv : ℕ → ℕ
unfolding get_first_lv
get_second_lv addr = u32 (addr / 2 ^ offset_len + 2 ^ 32 - u32 (get_first_lv addr * 2 ^ page_len))

-- `struct trans_table_t`: the `v_index` of its entries, up to `size`.
pub record TransTable : Type 0 where
  pub v_index : List ℕ

-- The loop does nothing, and the result is NULL.
pub get_trans_table : (index table_size : ℕ) → Option TransTable
get_trans_table index zero = none
get_trans_table index (suc n) = get_trans_table index n

-- The second loop of `translate`.
pub find_index : List ℕ → (second_lv : ℕ) → ℕ
find_index [] second_lv = 0
find_index (v ∷ vs) second_lv =
    let rest = find_index vs second_lv in if v == second_lv then 1 else rest

-- What `translate` does with the table that it found.
pub in_table : Option TransTable → (second_lv : ℕ) → ℕ
unfolding find_index
in_table none second_lv = 0
in_table (some t) second_lv = find_index t.v_index second_lv

-- The result; nothing is ever stored through `physical_addr`.
pub translate : (virtual_addr : ℕ) → Seg → ℕ
unfolding get_trans_table get_first_lv get_second_lv in_table
translate virtual_addr proc =
    in_table (get_trans_table (get_first_lv virtual_addr) proc.table_size)
      (get_second_lv virtual_addr)

-- The address, and the process.
pub alloc_mem : (size : ℕ) → Seg → ℕ × Seg
alloc_mem size proc =
    let pages = if not (size % page_size == 0) then size / page_size else size / page_size + 1 in
    let mem_avail : ℕ = 0 in
    if not (mem_avail == 0)
    then (proc.bp, record proc { bp = u32 (proc.bp + pages * page_size) })
    else (0, proc)

pub free_mem : (address : ℕ) → Seg → ℕ
free_mem address proc = 0

-- The result, and the byte stored through `data`, if one is. The physical address is a variable that
-- nobody has set.
pub read_mem : Ram → (address : ℕ) → Seg → Option (ℕ × Option ℕ)
unfolding translate
read_mem m address proc = if not (translate address proc == 0) then none else some (1, none)

pub write_mem : Ram → (address : ℕ) → Seg → (data_ : ℕ) → Option (ℕ × Ram)
unfolding translate
write_mem m address proc data_ = if not (translate address proc == 0) then none else some (1, m)

-- `alloc` of cpu.c: `none` is a register behind the tenth.
pub alloc : Seg → (size reg_index : ℕ) → Option (ℕ × Seg)
unfolding alloc_mem
alloc proc size reg_index =
    let (addr, proc') = alloc_mem size proc in
    let stored = (do
      old ← get_elem? proc'.regs reg_index
      some (0, record proc' { regs = set proc'.regs reg_index addr })) in
    if addr == 0 then some (1, proc') else stored

pub free_data : Seg → (reg_index : ℕ) → Option ℕ
unfolding free_mem
free_data proc reg_index = do r ← get_elem? proc.regs reg_index; some (free_mem r proc)

-- `read` of cpu.c: the byte is a local variable.
pub read : Ram → Seg → (source offset destination : ℕ) → Option (ℕ × Seg)
unfolding read_mem
read m proc source offset destination = do
  base ← get_elem? proc.regs source
  (failed, byte) ← read_mem m (u32 (base + offset)) proc
  let stored = (do
    data_ ← byte
    old ← get_elem? proc.regs destination
    some (0, record proc { regs = set proc.regs destination data_ }))
  if not (failed == 0) then stored else some (1, proc)

pub write : Ram → Seg → (data_ destination offset : ℕ) → Option (ℕ × Ram)
unfolding write_mem
write m proc data_ destination offset = do
  base ← get_elem? proc.regs destination
  write_mem m (u32 (base + offset)) proc data_

-- A line of `dump`: a page that is in use, with its bounds, or a byte that is not 0.
pub data DumpLine : Type 0 where
  page_line : (i first last proc index next : ℕ) → DumpLine
  byte_line : (address value : ℕ) → DumpLine

-- The inner loop, with the given number of rounds left; its test leaves out the last byte of a page.
pub dump_bytes : Ram → ℕ → (j : ℕ) → List DumpLine
dump_bytes m zero j = []
dump_bytes m (suc n) j =
    let rest = dump_bytes m n (suc j) in if m.ram j == 0 then rest else byte_line j (m.ram j) ∷ rest

pub dump_page : Ram → (i : ℕ) → List DumpLine
unfolding dump_bytes
dump_page m i =
    let first = i * 2 ^ offset_len in
    let last = (i + 1) * 2 ^ offset_len - 1 in
    let s = m.mem_stat i in
    if s.proc == 0
    then []
    else page_line i first last s.proc s.index s.next ∷ dump_bytes m (last - first) first

pub dump_pages : Ram → ℕ → (i : ℕ) → List DumpLine
unfolding dump_page
dump_pages m zero i = []
dump_pages m (suc n) i = dump_page m i ++ dump_pages m n (suc i)

pub dump : Ram → List DumpLine
unfolding dump_pages
dump m = dump_pages m num_pages 0
