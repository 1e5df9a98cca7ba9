-- ===== src/Processes/Scheduler/Tests.antt =====
-- Two processes, and the theorem of Scheduler at them.
use tachyon.Base.{
  ℕ, zero, suc, ◌<◌, ◌≡◌, refl, false, Option, none, some, List, [], ◌∷◌, arith, ◌==◌,
  if◌then◌else◌, All, ok,
}
use tachyon.Collections.LinkedList.{LinkedList, make_empty, add, traverse, iterator}
use tachyon.Processes.Process.{Thread, Process, make_process, add_thread}
use tachyon.Processes.Scheduler.{Scheduler, make_scheduler, add_process, schedule}
use tachyon.Processes.Scheduler.Switches.{Lists, schedule-calls}

abbrev no_threads : LinkedList Thread
no_threads = record {
  count = 0;
  head = 0;
  next = λ x. 0;
  payload = λ x. record { address = 0; parent = 0; id = 0; stack = 0; ip = 0 };
  live = λ x. false;
}

abbrev no_processes : Scheduler
no_processes = record {
  processes =
      λ i. record { count = 0; head = 0; next = λ x. 0; payload = λ x. none; live = λ x. false };
}

abbrev idle_thread : Thread
idle_thread = record { address = 0x70; parent = 0x60; id = 0; stack = 0; ip = 0x1000 }

abbrev idle : Process
idle = add_thread 0x80 idle_thread (make_process 0x2000 1 no_threads)

abbrev empty_process : Process
empty_process = make_process 0x3000 2 no_threads

-- A process without a thread at the highest priority, and the idle process at the lowest.
abbrev scheduler : Scheduler
scheduler =
    add_process 0x90 (some idle) 4
      (add_process 0xA0 (some empty_process) 0 (make_scheduler no_processes))

abbrev threads_of : Process → List Thread
threads_of p = if p.id == 1 then idle_thread ∷ [] else []

abbrev listed : ℕ → List (Option Process)
listed zero = some empty_process ∷ []
listed (suc zero) = []
listed (suc (suc zero)) = []
listed (suc (suc (suc zero))) = []
listed (suc (suc (suc (suc k)))) = some idle ∷ []

five :
    (k : ℕ)
    → k < 5
    → (traverse 3 (iterator (scheduler.processes k)) (scheduler.processes k) ≡ ok (listed k))
      × All (Lists 3 threads_of) (listed k)
unfolding add_process make_scheduler make_empty add add_thread make_process traverse
five zero low = (refl, (refl, tt))
five (suc zero) low = (refl, tt)
five (suc (suc zero)) low = (refl, tt)
five (suc (suc (suc zero))) low = (refl, tt)
five (suc (suc (suc (suc zero)))) low = (refl, (refl, tt))
five (suc (suc (suc (suc (suc k))))) low = absurd (omega arith)

schedule-calls_example : schedule 3 scheduler ≡ ok (idle_thread ∷ [])
unfolding add_thread make_process make_empty
schedule-calls_example = schedule-calls 3 threads_of scheduler listed five
