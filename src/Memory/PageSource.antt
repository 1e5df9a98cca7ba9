-- ===== src/Memory/PageSource.antt =====
-- What the heap asks of its page allocator (include/tachyon.memory/BreakPageAllocator.h):
-- getBase, getTop, getPageSize and increase(1). The state is the allocator with all that it uses.
use tachyon.Base.{ℕ, zero, suc, ◌+◌, ◌≡◌, Outcome, ok}

pub record PageSource : Type 1 where
  pub State : Type 0
  pub base : State → ℕ
  pub top : State → ℕ
  pub page : State → ℕ
  pub increase : State → Outcome State

module _ (src : PageSource) where
  open src use {State, base, top, page, increase}

  -- A call of increase(1) that maps one more page.
  pub record Grows (s s' : State) : Type 0 where
    pub returns : increase s ≡ ok s'
    pub same_base : base s' ≡ base s
    pub same_page : page s' ≡ page s
    pub higher : top s' ≡ top s + page s

  -- The next `k` calls all do.
  abbrev pub Supplies : ℕ → State → Type 0
  Supplies zero s = Unit
  Supplies (suc k) s = (s' : State) × Grows s s' × Supplies k s'
