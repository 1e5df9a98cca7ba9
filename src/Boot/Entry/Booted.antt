-- ===== src/Boot/Entry/Booted.antt =====
-- A boot (core/tachyon.boot/Entry.cc) that has come to its end.
use tachyon.Base.{
  ℕ, zero, suc, ◌≤◌, ◌<◌, ◌≡◌, refl, ap, ◌∙◌, ◌≢◌, true, false, Option, some, List, [], ◌∷◌, arith,
  ◌==◌, le→leb, ==_iff, length, get_or, set, All, length-set, get_or-set, Outcome, ok, Returns,
  Returns->>=, Returns-kassert, Returns-ok,
}
use tachyon.Memory.PhysicalMemory.{PhysicalMemory, page_size, allocate_aligned, reserve}
use tachyon.Memory.VirtualMemory.{map_page}
use tachyon.Collections.LinkedList.{LinkedList, make_empty, add, traverse, iterator}
use tachyon.Boot.MultiBoot.{set_up_memory}
use tachyon.Boot.Entry.{
  BootEnvironment, mb_magic, core_heap_start, has_apic, create_core_process, start_idle, boot,
}
use tachyon.Cpu.InterruptManager.{call, eoi, add_handler, dispatch}
use tachyon.Cpu.LocalApic.{
  Kernel, init_apic, use_zone, is_primary_cpu, apic_virtual, irq_timer, irq_spurious, irq_error,
  program,
}
use tachyon.Processes.Process.{Thread, Process, make_process, make_thread, add_thread}
use tachyon.Processes.Scheduler.{Scheduler, make_scheduler, lowest, add_process, schedule}
use tachyon.Processes.Scheduler.Switches.{Lists, schedule-calls}

-- The three handlers are found in the table after init.
handlers_timer :
    (timer spurious error : ℕ) (hs : List ℕ)
    → length hs ≡ 60
    → timer ≢ 0
    → dispatch irq_timer (
        add_handler irq_error error
          (add_handler irq_spurious spurious (add_handler irq_timer timer hs)))
      ≡ call timer ∷ eoi ∷ []
unfolding dispatch add_handler
handlers_timer timer spurious error hs sixty some_handler =
    let h1 = set hs irq_timer timer in
    let h2 = set h1 irq_spurious spurious in
    let found : get_or (set h2 irq_error error) irq_timer 0 ≡ timer =
      get_or-set h2 irq_error irq_timer error 0
        (omega (arith, sixty, length-set hs irq_timer timer, length-set h1 irq_spurious spurious))
      ∙ get_or-set h1 irq_spurious irq_timer spurious 0
          (omega (arith, sixty, length-set hs irq_timer timer))
      ∙ get_or-set hs irq_timer irq_timer timer 0 (omega (arith, sixty)) in
    let nonzero : (timer == 0) ≡ false = ground (arith, some_handler) in rw (found, nonzero)

-- What init leaves when it returns.
record ApicSet (b : BootEnvironment) (k k' : Kernel) : Type 0 where
  primary : is_primary_cpu b.msr ≡ true
  programmed : k'.registers ≡ program k.registers
  handled :
      k'.handlers
      ≡ add_handler irq_error b.error_handler (
          add_handler irq_spurious b.spurious_handler
            (add_handler irq_timer b.timer_handler k.handlers))

init_apic-ApicSet :
    (fuel : ℕ) (b : BootEnvironment) (k : Kernel)
    → Returns
        (ApicSet b k)
        (init_apic fuel b.space b.msr b.timer_handler b.spurious_handler b.error_handler k)
unfolding init_apic
init_apic-ApicSet fuel b k = Returns->>= (ApicSet b k) (reserve _ _ k.machine.physical) _ (λ pm.
    Returns->>= (ApicSet b k) (use_zone _) _ (λ zones.
      Returns->>= (ApicSet b k) (map_page fuel b.space apic_virtual _ 0x1A _) _ (λ machine.
        Returns-kassert (ApicSet b k) (is_primary_cpu b.msr) _
          (λ primary. record { primary = primary; programmed = refl; handled = refl }))))

-- The idle thread.
abbrev pub idle_thread : BootEnvironment → Thread
idle_thread b = record {
  address = b.thread_address;
  parent = b.process_address;
  id = 0;
  stack = 0;
  ip = b.idle_entry;
}

abbrev idle : BootEnvironment → Process
idle b = add_thread b.thread_node (idle_thread b) (create_core_process b 1)

-- A boot that comes to its end.
pub record Booted (b : BootEnvironment) (k : Kernel) (r : Outcome (Kernel × Scheduler))
    : Type 0 where
  pub kernel : Kernel
  pub scheduler : Scheduler
  pub returns : r ≡ ok (kernel, scheduler)
  pub primary : is_primary_cpu b.msr ≡ true
  pub programmed : kernel.registers ≡ program k.registers
  pub timer : dispatch irq_timer kernel.handlers ≡ call b.timer_handler ∷ eoi ∷ []
  pub scheduled : (fuel : ℕ) → schedule (suc fuel) scheduler ≡ ok (idle_thread b ∷ [])

-- The scheduler with the idle process and no other.
module _ (b : BootEnvironment) (s : Scheduler) (thread_node : b.thread_node ≢ 0)
    (process_node : b.process_node ≢ 0) where
  abbrev with_idle : Scheduler
  with_idle = add_process b.process_node (some (idle b)) lowest (make_scheduler s)

  abbrev listed : ℕ → List (Option Process)
  listed zero = []
  listed (suc zero) = []
  listed (suc (suc zero)) = []
  listed (suc (suc (suc zero))) = []
  listed (suc (suc (suc (suc k)))) = some (idle b) ∷ []

  abbrev threads_of : Process → List Thread
  threads_of p = idle_thread b ∷ []

  one_node {ℓ} :
      {A : Type ℓ} (fuel node : ℕ) (item : A) (l : LinkedList A)
      → node ≢ 0
      → traverse (suc fuel) (iterator (add node item (make_empty l))) (add node item (make_empty l))
        ≡ ok (item ∷ [])
  unfolding traverse add make_empty
  one_node zero node item l some_node =
      let nonzero : (node == 0) ≡ false = ground (arith, some_node) in
      let self : (node == node) ≡ true = ground arith in rw (nonzero, self) refl
  one_node (suc fuel) node item l some_node =
      let nonzero : (node == 0) ≡ false = ground (arith, some_node) in
      let self : (node == node) ≡ true = ground arith in rw (nonzero, self) refl

  five :
      (fuel k : ℕ)
      → k < 5
      → (traverse (suc fuel) (iterator (with_idle.processes k)) (with_idle.processes k)
          ≡ ok (listed k))
        × All (Lists (suc fuel) threads_of) (listed k)
  unfolding add_process make_scheduler make_empty traverse add_thread create_core_process
      make_process
  five fuel zero low = (refl, tt)
  five fuel (suc zero) low = (refl, tt)
  five fuel (suc (suc zero)) low = (refl, tt)
  five fuel (suc (suc (suc zero))) low = (refl, tt)
  five fuel (suc (suc (suc (suc zero)))) low = (
    one_node fuel b.process_node (some (idle b)) (s.processes 4) process_node,
    (one_node fuel b.thread_node (idle_thread b) b.nodes thread_node, tt),
  )
  five fuel (suc (suc (suc (suc (suc k))))) low = absurd (omega arith)

  schedules_idle : (fuel : ℕ) → schedule (suc fuel) with_idle ≡ ok (idle_thread b ∷ [])
  schedules_idle fuel = schedule-calls (suc fuel) threads_of with_idle listed (five fuel)

  module _ (fuel : ℕ) (k : Kernel) (sixty : length k.handlers ≡ 60)
      (timer : b.timer_handler ≢ 0) where
    makes :
        (pm pm' : PhysicalMemory) (page : ℕ)
        → allocate_aligned fuel page_size 0x1000 pm ≡ ok (pm', page)
        → make_thread fuel b.thread_address b.process_address b.idle_entry 0 pm
          ≡ ok (pm', idle_thread b)
    unfolding make_thread
    makes pm pm' page allocated = rw allocated refl

    -- Where the three checks hold, the physical memory is set up, the local interrupt controller is
    -- initialised and the page for the stack of the idle thread is allocated, boot comes to its end.
    -- It ran on the primary processor; the controller is programmed; a timer interrupt calls the timer
    -- handler and then signals its end; and every run of the scheduler switches to the idle thread and
    -- to no other thread.
    pub boot-Booted :
        (pm pm' : PhysicalMemory) (k' : Kernel) (page : ℕ)
        → b.ebss ≤ core_heap_start
        → b.mbm ≡ mb_magic
        → has_apic b.cpuid_dx ≡ true
        → set_up_memory fuel b.read32 b.info b.lma_start b.ebss k.machine.physical ≡ ok pm
        → init_apic fuel b.space b.msr b.timer_handler b.spurious_handler b.error_handler
            (record k { machine = record k.machine { physical = pm } })
          ≡ ok k'
        → allocate_aligned fuel page_size 0x1000 k'.machine.physical ≡ ok (pm', page)
        → Booted b k (boot fuel b k (make_scheduler s))
    boot-Booted pm pm' k' page heap magic apic memory controller allocated =
        let set_up =
          Returns-ok (ApicSet b (record k { machine = record k.machine { physical = pm } })) _ k'
            (init_apic-ApicSet fuel b (record k { machine = record k.machine { physical = pm } }))
            controller in
        record {
          kernel = record k' { machine = record k'.machine { physical = pm' } };
          scheduler = with_idle;
          returns =
              unfold boot start_idle in
              rw
                (
                  le→leb b.ebss core_heap_start heap,
                  (==_iff b.mbm mb_magic).1 magic,
                  memory,
                  apic,
                  controller,
                  makes k'.machine.physical pm' page allocated,
                )
                refl;
          primary = set_up.primary;
          programmed = set_up.programmed;
          timer =
              ap (dispatch irq_timer) set_up.handled
              ∙ handlers_timer b.timer_handler b.spurious_handler b.error_handler k.handlers sixty
                  timer;
          scheduled = schedules_idle;
        }
