-- ===== src/Memory/Operators.antt =====
-- operator new and operator delete (core/tachyon.memory/OperatorNew.cc), over the heap. `fuel` is that
-- of the search of the heap.
use tachyon.Base.{ℕ, Outcome}
use tachyon.Memory.PageSource.{PageSource}
use tachyon.Memory.CoreHeap.{CoreHeap, allocate, free}

module _ (src : PageSource) where
  abbrev pub operator_new : ℕ → CoreHeap src → ℕ → Outcome (CoreHeap src × ℕ)
  operator_new fuel h size = allocate src fuel h size

  abbrev pub operator_new_array : ℕ → CoreHeap src → ℕ → Outcome (CoreHeap src × ℕ)
  operator_new_array fuel h size = allocate src fuel h size

  abbrev pub operator_delete : CoreHeap src → ℕ → CoreHeap src
  operator_delete h p = free src h p

  abbrev pub operator_delete_array : CoreHeap src → ℕ → CoreHeap src
  operator_delete_array h p = free src h p
