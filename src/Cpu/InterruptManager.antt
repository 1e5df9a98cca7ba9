-- ===== src/Cpu/InterruptManager.antt =====
-- InterruptManager (core/tachyon.platform/x86_common/InterruptManager.cc,
-- include/tachyon.platform/x86/InterruptManager.h). A handler is the number of its address, 0 for
-- none; what a dispatch does is the list of its effects.
use tachyon.Base.{ℕ, not, List, [], ◌∷◌, ◌++◌, ◌==◌, if◌then◌else◌, get_or, set}

abbrev pub handler_count : ℕ
handler_count = 60

-- A handler called with a state, or a write to the end-of-interrupt register.
pub data Effect : Type 0 where
  call : ℕ → Effect
  eoi : Effect

-- A vector from 60 on is not bounded by the source, and writes behind the table.
unfoldable pub add_handler : ℕ → ℕ → List ℕ → List ℕ
add_handler vector handler handlers = set handlers vector handler

unfoldable pub remove_handler : ℕ → List ℕ → List ℕ
remove_handler vector handlers = set handlers vector 0

unfoldable pub dispatch : ℕ → List ℕ → List Effect
dispatch interrupt handlers =
    (if not (get_or handlers interrupt 0 == 0) then call (get_or handlers interrupt 0) ∷ [] else [])
    ++ (eoi ∷ [])
