-- ===== src/Os/Boot/Ready.antt =====
-- What the threads of src/os.c find when `main` has started them.
use simple_32bit_os.Base.{
  ap₂, replicate, ℕ, zero, suc, ◌+◌, ◌*◌, ◌/◌, ◌<◌, ◌≤◌, ◌^◌, ◌≡◌, refl, ap, subst, fun_ext, ◌∙◌,
  some, List, [], ◌∷◌, ◌++◌, arith, leb, is_neg, true, get_elem?, get_or, length, All, false,
  get_elem?-replicate, length-replicate,
}
use simple_32bit_os.Memphy.{Memphy, frames_from, init_memphy}
use simple_32bit_os.Memphy.Frames
use simple_32bit_os.Memphy.Frames.{init_memphy-free, init_memphy-random}
use simple_32bit_os.Pte.{pagesz}
use simple_32bit_os.Sched.{max_prio, init_scheduler}
use simple_32bit_os.Sched.Start.{IsStatic, init_scheduler-IsValid}
use simple_32bit_os.Loader.{Stdio, Outcome}
use simple_32bit_os.Timer
use simple_32bit_os.Timer.{Dev, State, Reach, new_dev}
use simple_32bit_os.Os.Config.{Config, rounds, path_size, read_config}
use simple_32bit_os.Os.Idle.{IsIdle}
use simple_32bit_os.Os.Boot.{
  Junk, Boot, attach, attach_cpus, start_timer, no_processes, static_sched, create_memphy,
  create_swaps, boot, threads, after_config, input_dir, main,
}

-- A device of a size, with random access: all its frames are free, in order, and all its bytes 0.
pub record IsFresh (size : ℕ) (mp : Memphy) : Type 0 where
  pub frames : mp.free_fp_list ≡ frames_from (size / pagesz) 0
  pub valid : Frames.IsValid mp
  pub maxsz : mp.maxsz ≡ size
  pub random : mp.rdmflg ≡ 1
  pub bytes : (a : ℕ) → mp.storage a ≡ 0

-- Every CPU and the loader has a device of its own, the timer has not ticked, no process is ready, and
-- both devices in use are fresh.
pub record IsReady (c : Config) (swap : ℕ) (b : Boot) : Type 0 where
  pub cpus :
      (i : ℕ)
      → i < rounds c.num_cpus
      → get_elem? b.cpu_args i ≡ some (record { timer_id = some i; id = i })
  pub all_cpus : length b.cpu_args ≡ rounds c.num_cpus
  pub ld_event : b.ld_event ≡ some (rounds c.num_cpus)
  pub devices : b.dev_list ≡ replicate (suc (rounds c.num_cpus)) new_dev
  pub timer : b.timer ≡ Timer.init
  pub idle : IsIdle b.system
  pub ram : IsFresh c.memramsz b.system.mram
  pub swap_device : IsFresh swap b.system.active_mswp

static_sched-IsStatic : (j : Junk) → IsStatic (static_sched j.heap)
unfolding static_sched
static_sched-IsStatic j = record {
  queues = length-replicate max_prio no_processes;
  arrays = λ i q at. rw (get_elem?-replicate max_prio i no_processes q at) refl;
  running = record { slots = refl; bounded = omega arith };
  prio_zero = refl;
  slot_zero = refl;
}

-- A list of devices that were attached and have done nothing.
abbrev AllNew : List Dev → Type 0
AllNew devs = All (λ d. d ≡ new_dev) devs

attach_cpus-args :
    (n i : ℕ) (devs : List Dev)
    → length devs ≡ i
    → AllNew devs
    → ((k : ℕ)
        → k < n
        → get_elem? (attach_cpus n i devs).0 k
          ≡ some (record { timer_id = some (i + k); id = i + k }))
      × (length (attach_cpus n i devs).0 ≡ n)
      × (length (attach_cpus n i devs).1 ≡ i + n)
      × AllNew (attach_cpus n i devs).1
unfolding attach_cpus
attach_cpus-args zero i devs e new = (λ k lt. absurd (omega arith), refl, omega (arith, e), new)
attach_cpus-args (suc n) i devs e new =
    let (args, count, devices, fresh) =
      attach_cpus-args n (suc i) (new_dev ∷ devs) (ap suc e) (refl, new) in
    (at args, ap suc count, omega (arith, devices), fresh)
  where
    at :
        ((k : ℕ)
          → k < n
          → get_elem? (attach_cpus n (suc i) (new_dev ∷ devs)).0 k
            ≡ some (record { timer_id = some (suc i + k); id = suc i + k }))
        → (k : ℕ) → k < suc n
        → get_elem? (attach_cpus (suc n) i devs).0 k
          ≡ some (record { timer_id = some (i + k); id = i + k })
    at args zero lt = let z : i + 0 ≡ i = omega arith in rw (z, e) refl
    at args (suc k) lt =
        let shift : i + suc k ≡ suc i + k = omega arith in rw shift (args k (omega arith))

get_or-AllNew : (devs : List Dev) (i : ℕ) → AllNew devs → get_or devs i new_dev ≡ new_dev
get_or-AllNew [] i new = refl
get_or-AllNew (d ∷ devs) zero new = new.0
get_or-AllNew (d ∷ devs) (suc i) new = get_or-AllNew devs i new.1

AllNew-replicate :
    (devs : List Dev) (n : ℕ) → length devs ≡ n → AllNew devs → devs ≡ replicate n new_dev
AllNew-replicate [] zero e new = refl
AllNew-replicate [] (suc n) e new = absurd (omega arith)
AllNew-replicate (d ∷ devs) zero e new = absurd (omega arith)
AllNew-replicate (d ∷ devs) (suc n) e new =
    let rest = AllNew-replicate devs n (omega arith) new.1 in ap₂ (λ x xs. x ∷ xs) new.0 rest

start_timer-init : (devs : List Dev) → AllNew devs → start_timer devs ≡ Timer.init
unfolding start_timer
start_timer-init devs new =
    ap (λ dev. record Timer.init { dev = dev }) (fun_ext λ i. get_or-AllNew devs i new)

-- `create_memphy` of a size of two frames at least.
create_memphy-IsFresh :
    (mp : Memphy) (size : ℕ) (fp_next : List ℕ)
    → 2 * pagesz ≤ size
    → size < 2 ^ 31
    → (create_memphy mp size fp_next ≡ some (init_memphy mp size 1 fp_next))
      × IsFresh size (init_memphy mp size 1 fp_next)
unfolding create_memphy
create_memphy-IsFresh mp size fp_next big small =
    let plain : is_neg size ≡ false = ground arith in
    let free = init_memphy-free mp size 1 fp_next big in
    (
      rw plain refl,
      record {
        frames = free.0;
        valid = free.1;
        maxsz = free.3;
        random = init_memphy-random mp size fp_next;
        bytes = free.4;
      },
    )

create_swaps-total :
    (j : Junk) (sizes : List ℕ) (sit : ℕ)
    → All (λ size. size < 2 ^ 31) sizes
    → (devices : List Memphy) × (create_swaps j sizes sit ≡ some devices)
unfolding create_swaps create_memphy
create_swaps-total j [] sit h = ([], refl)
create_swaps-total j (size ∷ sizes) sit h =
    let plain : is_neg size ≡ false = ground arith in
    let (devices, e) = create_swaps-total j sizes (suc sit) h.1 in
    (init_memphy (j.mswp sit) size 1 j.fp_next ∷ devices, rw (plain, e) refl)

-- The configuration has a size of at least two frames for RAM and for the first swap device.
pub record HasMemory (c : Config) (swap : ℕ) (others : List ℕ) : Type 0 where
  pub sizes : c.memswpsz ≡ swap ∷ others
  pub ram_big : 2 * pagesz ≤ c.memramsz
  pub ram_small : c.memramsz < 2 ^ 31
  pub swap_big : 2 * pagesz ≤ swap
  pub swap_small : swap < 2 ^ 31
  pub others_small : All (λ size. size < 2 ^ 31) others

create_swaps-first :
    (j : Junk) (size : ℕ) (sizes : List ℕ) (mp : Memphy) (rest : List Memphy)
    → create_memphy (j.mswp 0) size j.fp_next ≡ some mp
    → create_swaps j sizes 1 ≡ some rest
    → create_swaps j (size ∷ sizes) 0 ≡ some (mp ∷ rest)
unfolding create_swaps
create_swaps-first j size sizes mp rest e e' = rw (e, e') refl

boot-IsReady :
    (j : Junk) (c : Config) (swap : ℕ) (others : List ℕ)
    → HasMemory c swap others
    → (b : Boot) × (boot j c ≡ some b) × (b.config ≡ c) × IsReady c swap b
unfolding boot attach
boot-IsReady j c swap others h =
    let cpus = attach_cpus (rounds c.num_cpus) 0 [] in
    let (args, count, devices, new) = attach_cpus-args (rounds c.num_cpus) 0 [] refl tt in
    let (made, ram) = create_memphy-IsFresh j.mram c.memramsz j.fp_next h.ram_big h.ram_small in
    let (made', swap_device) =
      create_memphy-IsFresh (j.mswp 0) swap j.fp_next h.swap_big h.swap_small in
    let (rest, e) = create_swaps-total j others 1 h.others_small in
    let swaps : create_swaps j c.memswpsz 0
        ≡ some (init_memphy (j.mswp 0) swap 1 j.fp_next ∷ rest) =
      ap (λ sizes. create_swaps j sizes 0) h.sizes
      ∙ create_swaps-first j swap others (init_memphy (j.mswp 0) swap 1 j.fp_next) rest made' e in
    let start = init_scheduler-IsValid (static_sched-IsStatic j) in
    (
      record {
        config = c;
        cpu_args = cpus.0;
        ld_event = some (length cpus.1);
        dev_list = new_dev ∷ cpus.1;
        timer = start_timer (new_dev ∷ cpus.1);
        mswp = init_memphy (j.mswp 0) swap 1 j.fp_next ∷ rest;
        system = record {
          sched = init_scheduler (static_sched j.heap);
          memory = j.memory;
          mram = init_memphy j.mram c.memramsz 1 j.fp_next;
          active_mswp = init_memphy (j.mswp 0) swap 1 j.fp_next;
          freed = λ p. true;
        };
      },
      rw (made, swaps) refl,
      refl,
      record {
        cpus = λ i lt.
            let same : 0 + i ≡ i = omega arith in
            subst (λ m. get_elem? cpus.0 i ≡ some (record { timer_id = some m; id = m })) same
              (args i lt);
        all_cpus = count;
        ld_event = ap some (omega (arith, devices));
        devices =
            ap (λ ds. new_dev ∷ ds)
              (AllNew-replicate cpus.1 (rounds c.num_cpus) (omega (arith, devices)) new);
        timer = start_timer-init (new_dev ∷ cpus.1) (refl, new);
        idle = record { valid = start.0; idle = start.1 };
        ram = ram;
        swap_device = swap_device;
      },
    )

-- The program is started with one argument, the name of a configuration, of at most 93 characters,
-- which `read_config` reads, and in which RAM and the first swap device have two frames or more and
-- every size is below 2 ^ 31. Whatever was in memory before, `main` gets to the start of the threads.
-- Then each CPU, and the loader, has a device of its own at the timer, with a number of its own; no device
-- has done anything, and the timer is at the test of its loop, with no tick so far and not stopped; the
-- scheduler is valid and no process is ready; RAM and the swap device that all processes use have the
-- configured sizes and random access, every one of their frames free, once each, and every byte 0.
pub main-IsReady :
    (io : Stdio) (j : Junk) (program arg : List ℕ) (c : Config) (swap : ℕ) (others : List ℕ)
    → length arg < 94
    → read_config io j.prio (input_dir ++ arg) ≡ some (Outcome.returned c)
    → HasMemory c swap others
    → (b : Boot) × (main io j (program ∷ arg ∷ []) ≡ some (Outcome.returned (threads b)))
      × (b.config ≡ c)
      × IsReady c swap b
unfolding main after_config
main-IsReady io j program arg c swap others short read h =
    let (b, e, same, ready) = boot-IsReady j c swap others h in
    let fits : leb path_size (length (input_dir ++ arg)) ≡ false = ground arith in
    (b, rw (fits, read, e) refl, same, ready)
