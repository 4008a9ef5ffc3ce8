-- ===== src/Lib.antt =====
-- The Simple 32-bit OS: a simulated operating system with a multilevel queue scheduler and paged
-- memory. A CPU thread takes a process from the scheduler, runs its instructions for a time slot and
-- puts it back; the instructions that touch memory go through the memory library to the address space
-- of the process, its page table, and two physical devices, RAM and swap.
--
-- Which file models what (paths from the root of the repository):
--   Queue      src/queue.c, include/queue.h: `queue_t`, `enqueue`, `dequeue`, `queue_traversal`.
--              Queue/Contents has the invariant of the array and the processes it holds, Queue/Order
--              the order in which `dequeue` takes them.
--   Process    `pcb_t` and `inst_t` of include/common.h.
--   Sched      src/sched.c: the static variables are the record Sched, each function one of the same
--              name. Sched/Get is about `get_mlq_proc`, Sched/Put about `put_proc`, Sched/Valid about the
--              invariant, Sched/Policy about the counters and the running list, Sched/Start about the
--              start. Sched/Refine has an abstract machine, a list of waiting processes for each prio,
--              that the code refines.
--   Pte        include/bitops.h, include/mm.h, and the page table entries of src/mm.c. Bits has the
--              arithmetic of bit fields, Pte/Arithmetic the macros as division and remainder.
--   Memphy     src/mm-memphy.c and `__swap_cp_page`: Memphy/Device is about bytes, Memphy/Copy about the
--              copy of a page, Memphy/Frames about the list of free frames.
--   Memory     the structures of include/os-mm.h: `mm_struct`, `vm_area_struct`, `vm_rg_struct`, and the
--              fields of `pcb_t` that point to memory, as the record Caller.
--   Mm         src/mm.c: frames for pages, `vmap_page_range`, `vm_map_ram`, `init_mm`. Mm/Alloc is about
--              the frames, Mm/Map about one call, Mm/Isolated about those of several processes on
--              one RAM.
--   Vm         src/mm-vm.c: areas, Vm/Areas about finding and comparing them, Vm/Limit and
--              Vm/Grown about `inc_vma_limit`.
--   Libmem     src/libmem.c. Libmem/FreeList has the free regions and symbols, with FreeList/Search,
--              Fit and Bounded about the search; Libmem/Alloc `__alloc` and `__free` (`alloc`, `free`),
--              with Alloc/Reuse, Heap and Free about their cases and Alloc/Disjoint about the heaps
--              that sequences of calls of all processes leave; Libmem/Paging `pg_getpage`, `pg_getval`, `pg_setval`,
--              `__read` and `__write` (`read_region`, `write_region`), `libread`, `libwrite`;
--              Libmem/Private is about two symbols, of one process or of two.
--   Syscall    src/sys_mem.c: `sys_memmap` is `__sys_memmap`.
--   System     what the threads share: scheduler, memories, devices, and the blocks that were freed.
--   Killall    src/sys_killall.c: `sys_killall` is `__sys_killall`; `kill_in` is each of its loops.
--              Killall/Live is about the queue, Killall/Rounds about one round, Killall/Blocked and
--              Killall/Sweep about a whole loop, Killall/Freed about a loop over a freed block, and
--              Killall/Programs about what stays as it is.
--   Dispatch   src/syscall.c, src/libstd.c, src/syscall.tbl, src/sys_listsyscall.c.
--   Cpu        src/cpu.c: `run`. Cpu/Step is about READ and WRITE, Cpu/Programs about every instruction.
--   Loader     src/loader.c: `load`, with the C library as the parameter Stdio.
--   Timer      src/timer.c: the relation Step on the timer and its devices, in any interleaving.
--              Timer/Devices, Timer/Counters and Timer/Invariant have the invariant, Timer/Lockstep what
--              follows of the time, and Timer/Retire, Timer/Round and Timer/Progress the run to the
--              end.
--   Segments   src/mem.c and the functions of src/cpu.c that call it, for a build without MM_PAGING;
--              Segments/Obsolete is about what is left of them.
--   Os         src/os.c: `cpu_turn` is what `cpu_routine` does between two calls of `next_slot`, and in
--              Os/Load `ld_turn` is that of `ld_routine`. Os/Idle is about a CPU without a ready process,
--              Os/Slot and Os/Quantum about the time slot, Os/Load/Start about the loader, Os/Load/Added
--              about a process that it adds for a CPU that waits. Os/Config is `read_config`, with
--              Config/RoundTrip about the file that it reads, and Os/Boot `main` up to the creation of
--              the threads, with Boot/Ready about what they find.
--   Print      the functions at the end of src/mm.c that print; Print/Table is about `print_pgtbl`.
--   Base       undefined behaviour as `none`, machine words, arrays, and what the libraries give.
--
-- How the program is modelled. A function that changes a structure through a pointer takes the structure
-- and returns it. `none` as the whole result of a function is undefined behaviour of the C code: a NULL
-- dereference, an access outside an array, the use of a variable that nobody has set. A result code is
-- the bit pattern of the `int`, `minus_one` for -1. An `int` and a `uint32_t` are numbers below 2 ^ 32, an
-- `unsigned long` is one below 2 ^ 64, and each conversion of the source is written out. Memory that
-- `malloc` leaves unset is a parameter (`junk`). A linked list is a list, and the address of a process is
-- a number. The build is the one of the repository, MLQ_SCHED and MM_PAGING
-- are defined, but for Segments.
--
-- Loops. `scan`, `shift`, `find_from`, `copy_from`, `frames_from`, `free_pages` and `alloc_from` run a number
-- of rounds that the source computes before the loop. `advance` (the cursor) has `maxsz` rounds as fuel,
-- and the loop ends by then. `probe` (the search for a free region) has the length of the list plus 2 as
-- fuel, which is enough for every size but 0, where the source may not end. `read_name` has the 100 places
-- of the array that it fills; `kill_rounds` has the size of the queue, which the source reads first;
-- `load_text` has the size of the program, and `get_trans_table` that of the table. `read_processes` has
-- the number of processes of the configuration, and `print_rows` the pages between the bounds.
--
-- Threads. The timer and its devices are interleaved step by step in Timer. A turn of a CPU or of the
-- loader is one function; the timer makes the turns of a slot end before the next slot begins, and inside
-- a turn the calls on the scheduler hold `queue_lock`. `mmvm_lock` is held for a call or part of one.
--
-- Not modelled: creating and joining threads, which is the system's, what the lib functions and the
-- threads print on their way, and src/paging.c, an older main program.
pub mod Base
pub mod Queue
pub mod Process
pub mod Sched
pub mod Bits
pub mod Pte
pub mod Memphy
pub mod Memory
pub mod Mm
pub mod Vm
pub mod Libmem
pub mod System
pub mod Killall
pub mod Loader
pub mod Dispatch
pub mod Cpu
pub mod Timer
pub mod Segments
pub mod Print
pub mod Os
pub mod Syscall
