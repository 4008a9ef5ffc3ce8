-- ===== src/Os/Tests.antt =====
-- Turns of a CPU and of the loader on the machine of System/Tests, in which no process is ready.
use simple_32bit_os.Base.{
  ℕ, ◌>>=◌, ◌≡◌, refl, ◌∙◌, true, false, none, some, [], ◌∷◌, arith, length-replicate,
  get_elem?-replicate, get_elem?,
}
use simple_32bit_os.Libmem.Tests
use simple_32bit_os.Libmem.Tests.{symbol}
use simple_32bit_os.Queue.{Queue}
use simple_32bit_os.Process.{QueueRef, Opcode}
use simple_32bit_os.Sched
use simple_32bit_os.Sched.{max_prio}
use simple_32bit_os.Cpu.{run}
use simple_32bit_os.System.{System, set_pcb}
use simple_32bit_os.System.Tests.{machine, block, instruction, no_process}
use simple_32bit_os.Killall.{kill_in, end_program}
use simple_32bit_os.Cpu.Step.{Next, stepped, run-calc}
use simple_32bit_os.Loader.{Stdio, Outcome}
use simple_32bit_os.Os.Load.{LdArgs, Ld, LdTurn, Malloc, ld_turn}
use simple_32bit_os.Os.Load.Added.{cpu_turn-ld_turn}
use simple_32bit_os.Os.Load.Start.{Started, ld_turn-Started}
use simple_32bit_os.Os.{Cpu, Action, Turn, cpu_turn}
use simple_32bit_os.Os.Idle.{
  IsIdle, IsEntered, settled, cpu_turns, without_process, cpu_turns-IsIdle, cpu_turn-killall,
}
use simple_32bit_os.Os.Slot.{ran, Served, cpu_turn-run, turns-slot}
use simple_32bit_os.Os.Quantum.{IsCpu, Slot, cpu_turn-IsCpu}

abbrev plain : System
plain = machine λ p. 1

-- Process 2 is at its end.
abbrev ended_2 : System
ended_2 = set_pcb plain 2 (record (block (λ p. 1) 2) { pc = 1 })

queues_empty :
    (j : ℕ) (q : Queue) → get_elem? plain.sched.mlq_ready_queue j ≡ some q → q ≡ no_process
queues_empty j q at = get_elem?-replicate max_prio j no_process q at

not_in : (i : ℕ) {p : ℕ} → get_elem? {A = ℕ} [] i ≡ some p → ⊥
not_in i e = cc

plain-IsIdle : IsIdle plain
plain-IsIdle = record {
  valid = record {
    queues = length-replicate max_prio no_process;
    arrays = λ j q at. rw (queues_empty j q at) (record { slots = refl; bounded = omega arith });
    placed = λ j i q p at at'. absurd (not_in i (rw (queues_empty j q at) at at'));
    running = record { slots = refl; bounded = omega arith };
    slots = refl;
    prio_in = omega arith;
    slot_in = omega arith;
  };
  idle = λ j q at lt. rw (queues_empty j q at) refl;
}

ended_2-IsIdle : IsIdle ended_2
unfolding set_pcb
ended_2-IsIdle = record {
  valid = record {
    queues = plain-IsIdle.valid.queues;
    arrays = plain-IsIdle.valid.arrays;
    placed = λ j i q p at at'. absurd (not_in i (rw (queues_empty j q at) at at'));
    running = plain-IsIdle.valid.running;
    slots = refl;
    prio_in = omega arith;
    slot_in = omega arith;
  };
  idle = plain-IsIdle.idle;
}

cpu_turns-IsIdle_example :
    (cpu_turns symbol 2 (true ∷ false ∷ true ∷ []) plain (without_process 0)
      ≡ some (record {
        actions = Action.next_slot ∷ Action.next_slot ∷ Action.next_slot ∷ [];
        cpu = without_process 0;
        system = settled plain;
      }))
    × IsIdle (settled plain)
cpu_turns-IsIdle_example = cpu_turns-IsIdle symbol 2 true (false ∷ true ∷ []) plain 0 plain-IsIdle

cpu_turn-killall_example :
    (t : Turn) × (cpu_turn symbol 2 false ended_2 (record { time_left = 1; proc = some 2 })
      ≡ some t)
    × (t.system.freed 2 ≡ true)
    × IsEntered t.system 2
    × (kill_in end_program
          (some QueueRef.running)
          3
          []
          (record { system = t.system; killed_count = 0 })
        ≡ none)
unfolding set_pcb
cpu_turn-killall_example =
    cpu_turn-killall symbol 2 false ended_2 1 2 3 [] 0 ended_2-IsIdle refl refl
      (record { many = omega arith; index = 1; holds = refl })

abbrev after_slot : Cpu × System
after_slot = (record { time_left = 0; proc = some 2 }, stepped plain 2)

calc-Next : Next plain 2 instruction Opcode.calc
calc-Next = record { alive = refl; here = refl; is = refl }

one_turn :
    cpu_turn symbol 2 false plain (record { time_left = 1; proc = some 2 })
    ≡ some (record { action = Action.next_slot; cpu = after_slot.0; system = after_slot.1 })
one_turn =
    cpu_turn-run symbol 2 false plain 2 0 (record { alive = refl; unfinished = omega arith })
      (omega arith)
    ∙ rw (run-calc symbol plain 2 instruction calc-Next) refl

turns-slot_example : Served plain 2 1 after_slot
turns-slot_example =
    turns-slot symbol 2 false 1 plain 2 after_slot (omega arith) refl (omega arith) (omega arith)
      (rw one_turn refl)

cpu_turn-IsCpu_example :
    IsCpu 2 after_slot.0 × Slot 2 (record { time_left = 1; proc = some 2 }) after_slot.0
cpu_turn-IsCpu_example =
    cpu_turn-IsCpu symbol 2 (omega arith) (omega arith) false plain
      (record { time_left = 1; proc = some 2 })
      (record { action = Action.next_slot; cpu = after_slot.0; system = after_slot.1 })
      (record { at_most = omega arith; idle = λ e. cc }) one_turn

-- The C library and the blocks from `malloc` do not matter here.
abbrev no_file : Stdio
no_file = record {
  File = Unit;
  fopen = λ path. none;
  scan_word = λ file. (none, file);
  scan_number = λ file. (none, file);
  scan_long = λ file. (none, file);
  skip_space = λ file. file;
  fgets = λ size file. (none, file);
  sscan_numbers = λ count text. [];
}

abbrev malloc : Malloc
malloc = record {
  block = 4;
  junk = block (λ p. 1) 4;
  junk_size = 0;
  junk_text = λ i. instruction;
  mm = Tests.process.mm;
  pgd = λ p. 0;
  vmaid = 0;
  regions = [];
}

abbrev args : LdArgs
args = record { path = [] ∷ []; start_time = 3 ∷ []; prio = 0 ∷ []; num_processes = 1 }

abbrev waits_for_2 : Ld
waits_for_2 = record { i = 0; proc = some 2; avail_pid = 5; done = false }

ld_turn-Started_example :
    (out : LdTurn) × (ld_turn no_file malloc args 5 waits_for_2 plain (some 2)
      ≡ some (Outcome.returned out))
    × Started malloc args 5 3 waits_for_2 plain 2 out
ld_turn-Started_example =
    ld_turn-Started malloc args 5 3 waits_for_2 plain 2 no_file refl plain-IsIdle.valid
      (omega arith)

cpu_turn-ld_turn_example :
    (out : LdTurn) × (ld_turn no_file malloc args 5 waits_for_2 plain (some 2)
      ≡ some (Outcome.returned out))
    × (cpu_turn symbol 2 false out.system (record { time_left = 0; proc = none }) ≡ (
        run symbol (record out.system { sched = (Sched.get_proc out.system.sched).1 }) 2
        >>= ran symbol 2 false 2 1))
cpu_turn-ld_turn_example =
    cpu_turn-ld_turn symbol 1 false no_file malloc args 5 3 waits_for_2 plain 2 refl (omega arith)
      plain-IsIdle (omega arith) (omega arith)
