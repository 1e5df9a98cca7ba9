-- ===== src/Processes/Process.antt =====
-- Thread and Process (core/tachyon.processes/Thread.cc, Process.cc and their headers). A pointer to a
-- thread is the thread with its address.
use tachyon.Base.{ℕ, Bool, true, ◌&&◌, ◌==◌, Outcome, ok, ◌>>=◌}
use tachyon.Collections.LinkedList.{LinkedList, make_empty, add, remove}
use tachyon.Memory.PhysicalMemory.{PhysicalMemory, page_size, allocate_aligned}
use tachyon.Memory.TempMap.{Machine}
use tachyon.Memory.VirtualMemory.{new_vspace, delete_vspace}

-- `parent` is the address of the process, `ip` the entry in the saved processor state.
pub record Thread : Type 0 where
  pub address : ℕ
  pub parent : ℕ
  pub id : ℕ
  pub stack : ℕ
  pub ip : ℕ

-- The page for the stack is allocated and not kept; `fuel` is that of the search for it.
unfoldable pub make_thread : ℕ → ℕ → ℕ → ℕ → ℕ → PhysicalMemory → Outcome (PhysicalMemory × Thread)
make_thread fuel address parent entry id pm = do
  (pm', phys_stack) ← allocate_aligned fuel page_size 0x1000 pm
  ok (pm', record { address = address; parent = parent; id = id; stack = 0; ip = entry })

abbrev pub is_ready : Thread → Bool
is_ready t = true

-- `operator==` of threads, and that of pointers to threads.
unfoldable pub same_thread : Thread → Thread → Bool
same_thread t u = t.parent == u.parent && t.id == u.id

unfoldable pub same_pointer : Thread → Thread → Bool
same_pointer t u = t.address == u.address

pub record Process : Type 0 where
  pub space : ℕ
  pub id : ℕ
  pub threads : LinkedList Thread

-- The constructor for an existing address space; `nodes` is the memory for the nodes of the list.
unfoldable pub make_process : ℕ → ℕ → LinkedList Thread → Process
make_process existing pid nodes = record { space = existing; id = pid; threads = make_empty nodes }

-- The constructor with a new address space.
unfoldable pub create_process :
    ℕ → ℕ → ℕ → ℕ → LinkedList Thread → Machine → Outcome (Machine × Process)
create_process fuel current pdpt_high pid nodes m = do
  (m', space) ← new_vspace fuel current pdpt_high m
  ok (m', make_process space pid nodes)

-- The destructor.
unfoldable pub destroy_process : ℕ → Process → Machine → Outcome Machine
destroy_process pdpt_high p m = delete_vspace pdpt_high p.space m

unfoldable pub add_thread : ℕ → Thread → Process → Process
add_thread node t p = record p { threads = add node t p.threads }

unfoldable pub remove_thread : ℕ → Thread → Process → Outcome Process
remove_thread fuel t p = remove same_pointer fuel t p.threads >>= λ l. ok (record p { threads = l })
