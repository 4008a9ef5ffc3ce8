-- ===== src/Process.antt =====
-- The process control block of include/common.h, and the heap of them. The memory fields (`mm`,
-- `mram`, `mswp`, `active_mswp`) are in Memory; `page_table` and `bp` are in Legacy.
use simple_32bit_os.Base.{ℕ, Option, List, ◌==◌, if◌then◌else◌}
use simple_32bit_os.Queue.{Ptr}

-- `enum ins_opcode_t`
pub data Opcode : Type 0 where
  calc alloc free read write syscall : Opcode

-- `struct inst_t`; the arguments are `uint32_t`.
pub record Inst : Type 0 where
  pub opcode : Opcode
  pub arg_0 : ℕ
  pub arg_1 : ℕ
  pub arg_2 : ℕ
  pub arg_3 : ℕ

-- The queues that a block points at.
pub data QueueRef : Type 0 where
  ready running mlq : QueueRef

-- `struct pcb_t`. `text` is `code->text`, whose length is `code->size`; `path` is the text up to
-- its NUL.
pub record Pcb : Type 0 where
  pub pid : ℕ
  pub priority : ℕ
  pub path : List ℕ
  pub text : List Inst
  pub regs : List ℕ
  pub pc : ℕ
  pub ready_queue : Option QueueRef
  pub running_list : Option QueueRef
  pub mlq_ready_queue : Option QueueRef
  pub prio : ℕ

abbrev pub Heap : Type 0
Heap = Ptr → Pcb

-- `*p = c`
abbrev pub store : Heap → Ptr → Pcb → Heap
store h p c = λ x. if x == p then c else h x
