-- ===== src/Memory/SmartPointer/Tests.antt =====
-- Three slots, and the theorems of SmartPointer at them.
use tachyon.Base.{ℕ, zero, suc, ◌≡◌, refl, false, none, some, [], ◌∷◌, arith, ◌==◌}
use tachyon.Memory.SmartPointer.{SmartPointer, Pointers, slot, construct, copy, destroy, up, share}
use tachyon.Memory.SmartPointer.Counted.{IsCounted}
use tachyon.Memory.SmartPointer.Destroy.{Destroyed, destroy-Destroyed}
use tachyon.Memory.SmartPointer.Steps.{
  constructed, copied, Run, finished, onward, IsUsable, Run-IsCounted, Run-IsUsable,
}

-- One object, at 0x50, and no smart pointer.
abbrev start : Pointers
start = record {
  slots = none ∷ none ∷ none ∷ [];
  count = λ x. 0;
  counter_live = λ x. false;
  object_live = λ x. x == 0x50;
}

no_slot : (k : ℕ) (q : SmartPointer) → slot start k ≡ some q → ⊥
no_slot zero q here = cc
no_slot (suc zero) q here = cc
no_slot (suc (suc zero)) q here = cc
no_slot (suc (suc (suc k))) q here = cc

start-IsCounted : IsCounted start
start-IsCounted = record {
  owner = λ x. 0;
  counted = λ i p here. absurd (no_slot i p here);
  counters = λ i p here. absurd (no_slot i p here);
  objects = λ i p here. absurd (no_slot i p here);
  owned = λ i p here. absurd (no_slot i p here);
  bounded = omega arith;
}

abbrev one_pointer : Pointers
one_pointer = construct 0 7 0x50 start

abbrev two_pointers : Pointers
two_pointers = copy 1 0 one_pointer

abbrev handle : SmartPointer
handle = record { cnt = 7; ptr = 0x50 }

two_steps : Run start two_pointers
unfolding construct copy up share
two_steps =
    onward start one_pointer two_pointers
      (constructed 0 7 0x50 (omega arith) refl refl (λ k q here. absurd (no_slot k q here))
        (λ e. refl))
      (onward one_pointer two_pointers two_pointers (copied 1 0 handle (omega arith) refl refl)
        (finished two_pointers))

Run-IsUsable_example : IsUsable two_pointers handle
unfolding construct copy up share
Run-IsUsable_example = Run-IsUsable start two_pointers 1 handle start-IsCounted two_steps refl

destroy-Destroyed_example : Destroyed two_pointers handle (destroy 0 two_pointers)
unfolding construct copy up share
destroy-Destroyed_example =
    destroy-Destroyed two_pointers (Run-IsCounted start two_pointers two_steps start-IsCounted) 0
      handle refl
