-- ===== src/System/Tests.antt =====
-- A machine with the processes 1, 2 and 3, of which 2 was loaded from "input/proc/a". Each has the
-- memory of the tests of the memory library, and one instruction.
use simple_32bit_os.Base.{ℕ, some, [], ◌∷◌, ◌==◌, if◌then◌else◌, false, replicate}
use simple_32bit_os.Libmem.Tests
use simple_32bit_os.Queue.{Ptr, Queue}
use simple_32bit_os.Process.{Pcb, Inst, Opcode, QueueRef}
use simple_32bit_os.Sched.{max_prio, slots_from}
use simple_32bit_os.System.{System}

abbrev pub instruction : Inst
instruction = record { opcode = Opcode.calc; arg_0 = 0; arg_1 = 0; arg_2 = 0; arg_3 = 0 }

abbrev pub path_a : ℕ → ℕ
path_a p = if p == 2 then 97 else 98

abbrev pub block : (priority : Ptr → ℕ) → Ptr → Pcb
block priority p = record {
  pid = p;
  priority = priority p;
  path = 105 ∷ 110 ∷ 112 ∷ 117 ∷ 116 ∷ 47 ∷ 112 ∷ 114 ∷ 111 ∷ 99 ∷ 47 ∷ path_a p ∷ [];
  text = instruction ∷ [];
  regs = replicate 10 0;
  pc = 0;
  ready_queue = some QueueRef.ready;
  running_list = some QueueRef.running;
  mlq_ready_queue = some QueueRef.mlq;
  prio = 0;
}

abbrev pub no_process : Queue
no_process = record { proc = replicate 10 0; size = 0 }

abbrev pub three : Queue
three = record { proc = 1 ∷ 2 ∷ 3 ∷ replicate 7 0; size = 3 }

abbrev pub machine : (priority : Ptr → ℕ) → System
machine priority = record {
  sched = record {
    heap = block priority;
    ready_queue = no_process;
    run_queue = no_process;
    running_list = three;
    mlq_ready_queue = replicate max_prio no_process;
    slot = slots_from max_prio 0;
    curr_prio = 0;
    curr_slot = 0;
  };
  memory = λ p. Tests.process.mm;
  mram = Tests.device;
  active_mswp = Tests.device;
  freed = λ p. false;
}
