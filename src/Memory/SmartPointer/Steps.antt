-- ===== src/Memory/SmartPointer/Steps.antt =====
-- Programs over smart pointers (include/tachyon.memory/SmartPointer.h) as runs of their operations.
use tachyon.Base.{ℕ, ◌<◌, ◌≡◌, ◌≢◌, true, false, none, some, length}
use tachyon.Memory.SmartPointer.{
  SmartPointer, Pointers, slot, construct, copy, destroy, assign, references,
}
use tachyon.Memory.SmartPointer.Uses.{uses}
use tachyon.Memory.SmartPointer.Counted.{IsCounted, share-IsCounted, construct-IsCounted}
use tachyon.Memory.SmartPointer.Destroy.{destroy-IsCounted, assign-IsCounted}

-- One operation. A constructor takes a slot without a smart pointer; a new counter is one that is not
-- allocated, and the object of a constructor has no smart pointer yet.
pub data Step (s : Pointers) : Pointers → Type 0 where
  constructed :
      (i c object : ℕ)
      → i < length s.slots
      → slot s i ≡ none
      → s.counter_live c ≡ false
      → ((k : ℕ) (q : SmartPointer) → slot s k ≡ some q → q.ptr ≢ 0 → q.ptr ≢ object)
      → (object ≢ 0 → s.object_live object ≡ true)
      → Step s (construct i c object s)
  copied :
      (i j : ℕ) (p : SmartPointer)
      → i < length s.slots
      → slot s i ≡ none
      → slot s j ≡ some p
      → Step s (copy i j s)
  destroyed : (i : ℕ) (p : SmartPointer) → slot s i ≡ some p → Step s (destroy i s)
  assigned :
      (i j : ℕ) (p q : SmartPointer) → slot s i ≡ some p → slot s j ≡ some q → Step s (assign i j s)

pub data Run : Pointers → Pointers → Type 0 where
  finished : (s : Pointers) → Run s s
  onward : (s t u : Pointers) → Step s t → Run t u → Run s u

copy-IsCounted :
    (s : Pointers) (i j : ℕ) (p : SmartPointer)
    → IsCounted s
    → i < length s.slots
    → slot s i ≡ none
    → slot s j ≡ some p
    → IsCounted (copy i j s)
unfolding copy
copy-IsCounted s i j p h inside vacant source =
    rw source (share-IsCounted s h i inside vacant j p source)

Step-IsCounted : (s t : Pointers) → Step s t → IsCounted s → IsCounted t
Step-IsCounted s t (constructed i c object inside vacant fresh unmanaged allocated) h =
    construct-IsCounted s h i inside vacant c object fresh unmanaged allocated
Step-IsCounted s t (copied i j p inside vacant source) h =
    copy-IsCounted s i j p h inside vacant source
Step-IsCounted s t (destroyed i p here) h = destroy-IsCounted s h i p here
Step-IsCounted s t (assigned i j p q here source) h = assign-IsCounted s h i p here j q source

pub Run-IsCounted : (s t : Pointers) → Run s t → IsCounted s → IsCounted t
Run-IsCounted s t (finished u) h = h
Run-IsCounted s t (onward u m v step run) h = Run-IsCounted m t run (Step-IsCounted s m step h)

-- What a program can rely on for a smart pointer.
pub record IsUsable (s : Pointers) (p : SmartPointer) : Type 0 where
  pub counts : references p s ≡ uses p.cnt s.slots
  pub counter : s.counter_live p.cnt ≡ true
  pub object : p.ptr ≢ 0 → s.object_live p.ptr ≡ true

-- After any run of copies, destructions, assignments, and constructions, each from a null pointer
-- or from an allocated object that no smart pointer holds yet, and with a counter that was not
-- allocated, from a state whose counts are right, references() of each smart pointer is the number
-- of smart pointers that share its counter, and its counter and its object are not deleted.
pub Run-IsUsable :
    (s t : Pointers) (i : ℕ) (p : SmartPointer)
    → IsCounted s
    → Run s t
    → slot t i ≡ some p
    → IsUsable t p
unfolding references
Run-IsUsable s t i p h run here =
    let h' = Run-IsCounted s t run h in
    record {
      counts = h'.counted i p here;
      counter = h'.counters i p here;
      object = h'.objects i p here;
    }
