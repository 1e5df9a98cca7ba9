-- ===== src/Memory/SmartPointer.antt =====
-- SmartPointer and ReferenceCounter (include/tachyon.memory/SmartPointer.h, ReferenceCounter.h). The
-- smart pointers stand in numbered slots; a slot is `none` before the constructor and after the
-- destructor of its smart pointer. What the destructor of an object does to other smart pointers is
-- not in the model.
mod Uses
mod Counted
mod Destroy
mod Steps
mod Tests
use tachyon.Base.{
  ℕ, zero, suc, ◌+◌, ◌-◌, ◌*◌, ◌/◌, ◌%◌, ◌^◌, ◌≤◌, ◌<◌, min, bit_and, bit_or, ◌≡◌, refl, sym, ap,
  ◌∙◌, ◌≢◌, ◌↔◌, ◌⊎◌, inl, inr, Bool, true, false, not, ◌&&◌, ◌||◌, Option, none, some, List, [],
  ◌∷◌, ◌++◌, map, arith, ltb, leb, ◌==◌, if◌then◌else◌, ltb→lt, lt→ltb, le→ltb, leb→le, le→leb,
  lt→leb, ==_iff, same, same→eq, Bool-cases, Option-cases, passes_below, passes_below_sound, length,
  get_elem?, get_or, set, take, drop, replicate, All, length-append, length-set, length-replicate,
  get_or-set, get_or-replicate, get_or-replicate_lt, get_or_ext, All-set, All-get_or, All-replicate,
  Outcome, ok, fatal, out_of_fuel, ◌>>=◌, ◌>>◌, kassert, >>=-eq-ok,
}
use tachyon.Base.Bits.{add64, sub64}

-- The counter that `cnt` points to, and the object.
pub record SmartPointer : Type 0 where
  pub cnt : ℕ
  pub ptr : ℕ

-- The counters by address, and which counters and objects are allocated.
pub record Pointers : Type 0 where
  pub slots : List (Option SmartPointer)
  pub count : ℕ → ℕ
  pub counter_live : ℕ → Bool
  pub object_live : ℕ → Bool

abbrev pub slot : Pointers → ℕ → Option SmartPointer
slot s i = get_or s.slots i none

abbrev pub put {ℓ} : {B : Type ℓ} → ℕ → B → (ℕ → B) → ℕ → B
put a v f x = if x == a then v else f x

unfoldable pub up : ℕ → Pointers → Pointers
up c s = record s { count = put c (add64 (s.count c) 1) s.count }

-- The constructor from an object; `c` is the address of the new counter, which starts at 0. The
-- constructor without arguments is that of the null pointer.
unfoldable pub construct : ℕ → ℕ → ℕ → Pointers → Pointers
construct i c object s = up c (record s {
  slots = set s.slots i (some (record { cnt = c; ptr = object }));
  count = put c 0 s.count;
  counter_live = put c true s.counter_live;
})

-- `if(cnt->down() == 0) { delete cnt; delete ptr; }`
unfoldable pub release : Option SmartPointer → Pointers → Pointers
release none s = s
release (some p) s =
    let n = sub64 (s.count p.cnt) 1 in
    record s {
      count = put p.cnt n s.count;
      counter_live = if n == 0 then put p.cnt false s.counter_live else s.counter_live;
      object_live =
          if n == 0 && not (p.ptr == 0) then put p.ptr false s.object_live else s.object_live;
    }

-- The slot takes over the counter and the object of another smart pointer.
unfoldable pub share : ℕ → Option SmartPointer → Pointers → Pointers
share i none s = s
share i (some p) s = up p.cnt (record s { slots = set s.slots i (some p) })

-- The copy constructor.
unfoldable pub copy : ℕ → ℕ → Pointers → Pointers
copy i j s = share i (slot s j) s

-- The destructor.
unfoldable pub destroy : ℕ → Pointers → Pointers
destroy i s = let s' = release (slot s i) s in record s' { slots = set s'.slots i none }

-- `operator=`; the smart pointers are the same object if their slots are.
unfoldable pub assign : ℕ → ℕ → Pointers → Pointers
assign i j s = if i == j then s else share i (slot s j) (release (slot s i) s)

-- references()
unfoldable pub references : SmartPointer → Pointers → ℕ
references p s = s.count p.cnt

-- `operator==`
unfoldable pub points_alike : SmartPointer → SmartPointer → Bool
points_alike p q = p.ptr == q.ptr
