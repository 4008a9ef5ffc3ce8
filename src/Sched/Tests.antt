-- ===== src/Sched/Tests.antt =====
-- Runs of sched.c: the scheduler after the start, with process 5 of `prio` 3 put into it, and with
-- process 6, whose `prio` is too large.
use simple_32bit_os.Base.{
  List, Option, ◌≡◌, ◌⊎◌, ◌<◌, ◌≤◌, refl, none, some, [], ◌∷◌, ◌==◌, if◌then◌else◌, arith,
  replicate, get_elem?-replicate, length-replicate,
}
use simple_32bit_os.Queue.{Ptr, Queue, max_queue_size}
use simple_32bit_os.Process.{Heap}
use simple_32bit_os.Sched.{Sched, max_prio, priority_of, init_scheduler, get_mlq_proc, put_proc}
use simple_32bit_os.Sched.Get.{EmptyBelow, Got, none_found, get_mlq_proc-Got}
use simple_32bit_os.Sched.Valid.{IsValid}
use simple_32bit_os.Sched.Put.{prio_of, Enqueued, put_proc-Enqueued}
use simple_32bit_os.Sched.Refine.{Call, Trace, exec, view, exec-Trace}
use simple_32bit_os.Sched.Start.{IsStatic, init_scheduler-IsValid}
use simple_32bit_os.Sched.Policy.{get_mlq_proc_counters, choice, with_counters}

abbrev no_process : Queue
no_process = record { proc = replicate 10 0; size = 0 }

abbrev heap : Heap
heap p = record {
  pid = p;
  priority = 1;
  path = [];
  text = [];
  regs = [];
  pc = 0;
  ready_queue = none;
  running_list = none;
  mlq_ready_queue = none;
  prio = if p == 5 then 3 else 200;
}

abbrev static : Sched
static = record {
  heap = heap;
  ready_queue = no_process;
  run_queue = no_process;
  running_list = no_process;
  mlq_ready_queue = replicate max_prio no_process;
  slot = [];
  curr_prio = 0;
  curr_slot = 0;
}

static-IsStatic : IsStatic static
static-IsStatic = record {
  queues = length-replicate max_prio no_process;
  arrays = λ j q at. rw (get_elem?-replicate max_prio j no_process q at);
  running = record { slots = refl; bounded = omega arith };
  prio_zero = refl;
  slot_zero = refl;
}

abbrev started : Sched
started = init_scheduler static

started-IsValid : IsValid started
started-IsValid = (init_scheduler-IsValid {s = static} static-IsStatic).0

small_prio : prio_of started 5 < max_prio
unfolding init_scheduler
small_prio = omega arith

large_prio : max_prio ≤ prio_of started 6
unfolding init_scheduler
large_prio = omega arith

room : started.running_list.size < max_queue_size
unfolding init_scheduler
room = omega arith

put_proc-Enqueued_example :
    (t : Sched) × (put_proc started 5 ≡ some t) × IsValid t × Enqueued started 5 t
put_proc-Enqueued_example = put_proc-Enqueued {s = started} 5 started-IsValid small_prio

-- With process 5 ready.
abbrev ready : Sched
ready = (put_proc-Enqueued {s = started} 5 started-IsValid small_prio).0

ready-IsValid : IsValid ready
ready-IsValid = (put_proc-Enqueued {s = started} 5 started-IsValid small_prio).2

get_mlq_proc-Got_example :
    Got ready (get_mlq_proc ready)
    ⊎ (EmptyBelow ready max_prio × (get_mlq_proc ready ≡ none_found ready))
get_mlq_proc-Got_example = get_mlq_proc-Got ready ready-IsValid.arrays

get_mlq_proc_counters_example :
    choice (get_mlq_proc (with_counters ready 3 7)) ≡ choice (get_mlq_proc ready)
get_mlq_proc_counters_example = get_mlq_proc_counters ready 3 7

-- Process 5 is put behind the others of its `prio`, and the next two calls of `get_proc` are answered.
exec-Trace_example :
    (outs : List (Option Ptr)) × (t : Sched) × (exec (Call.put 5 ∷ Call.get ∷ Call.get ∷ []) started
      ≡ some (outs, t))
    × Trace
        (priority_of started)
        (prio_of started)
        (view started)
        (Call.put 5 ∷ Call.get ∷ Call.get ∷ [])
        outs
        (view t)
    × IsValid t
exec-Trace_example =
    exec-Trace (Call.put 5 ∷ Call.get ∷ Call.get ∷ []) started started-IsValid (small_prio, tt)
