-- ===== src/Collections/LinkedList.antt =====
-- LinkedList and its iterator (include/tachyon.collections/LinkedList.h,
-- include/tachyon.core.iface/Collection.h). A list is kept together with the nodes it points to: a
-- node is an address with a next pointer and a payload, and 0 is the null pointer.
mod Chains
mod Remove
mod Sweep
mod Dangling
mod Clear
mod Tests
use tachyon.Base.{
  ℕ, zero, suc, ◌+◌, ◌-◌, ◌*◌, ◌/◌, ◌%◌, ◌^◌, ◌≤◌, ◌<◌, min, bit_and, bit_or, ◌≡◌, refl, sym, ap,
  ◌∙◌, ◌≢◌, ◌↔◌, ◌⊎◌, inl, inr, Bool, true, false, not, ◌&&◌, ◌||◌, Option, none, some, List, [],
  ◌∷◌, ◌++◌, map, arith, ltb, leb, ◌==◌, if◌then◌else◌, ltb→lt, lt→ltb, le→ltb, leb→le, le→leb,
  lt→leb, ==_iff, same, same→eq, Bool-cases, Option-cases, passes_below, passes_below_sound, length,
  get_elem?, get_or, set, take, drop, replicate, All, length-append, length-set, length-replicate,
  get_or-set, get_or-replicate, get_or-replicate_lt, get_or_ext, All-set, All-get_or, All-replicate,
  Outcome, ok, fatal, out_of_fuel, ◌>>=◌, ◌>>◌, kassert, >>=-eq-ok,
}
use tachyon.Base.Bits.{add64, sub64}

abbrev pub put {ℓ} : {B : Type ℓ} → ℕ → B → (ℕ → B) → ℕ → B
put a v f x = if x == a then v else f x

-- `live` are the nodes that are allocated and not deleted. A deleted node keeps its words: the heap
-- writes the headers of its blocks only.
pub record LinkedList {ℓ} (A : Type ℓ) : Type ℓ where
  pub count : ℕ
  pub head : ℕ
  pub next : ℕ → ℕ
  pub payload : ℕ → A
  pub live : ℕ → Bool

-- The test end() of the iterator.
abbrev pub at_end : ℕ → Bool
at_end current = current == 0

module _ {ℓ} {A : Type ℓ} where
  -- The constructor.
  unfoldable pub make_empty : LinkedList A → LinkedList A
  make_empty l = record l { count = 0; head = 0 }

  unfoldable pub size : LinkedList A → ℕ
  size l = l.count

  -- `node` is the address that operator new returns.
  unfoldable pub add : ℕ → A → LinkedList A → LinkedList A
  add node item l = record l {
    count = add64 l.count 1;
    head = node;
    next = put node l.head l.next;
    payload = put node item l.payload;
    live = put node true l.live;
  }

  unfoldable pub relink : ℕ → ℕ → LinkedList A → LinkedList A
  relink prev v l = record l {
    head = if prev == 0 then v else l.head;
    next = if prev == 0 then l.next else put prev v l.next;
  }

  -- A second deletion of a node is ignored by the heap.
  unfoldable pub delete_node : ℕ → LinkedList A → LinkedList A
  delete_node p l = record l { live = put p false l.live }

  unfoldable pub unlink : ℕ → ℕ → LinkedList A → LinkedList A
  unlink prev p l =
      let l' = delete_node p (relink prev (l.next p) l) in record l' { count = sub64 l'.count 1 }

  -- LinkedListIterator: the node it stands at.
  abbrev pub iterator : LinkedList A → ℕ
  iterator l = l.head

  abbrev pub deref : ℕ → LinkedList A → A
  deref current l = l.payload current

  abbrev pub advance : ℕ → LinkedList A → ℕ
  advance current l = if current == 0 then current else l.next current

  -- `for(it = iterator(); !it.end(); ++it)`: the items that it passes.
  unfoldable pub traverse : ℕ → ℕ → LinkedList A → Outcome (List A)
  traverse zero current l = if at_end current then ok [] else out_of_fuel
  traverse (suc fuel) current l =
      let rest = traverse fuel (advance current l) l in
      if at_end current then ok [] else (rest >>= λ items. ok (deref current l ∷ items))

  -- `eq` is the operator == of the payload.
  module _ (eq : A → A → Bool) where
    unfoldable pub remove_loop : ℕ → ℕ → ℕ → A → LinkedList A → Outcome (LinkedList A)
    remove_loop zero prev p item l = if p == 0 then ok l else out_of_fuel
    remove_loop (suc fuel) prev p item l =
        let l' = if eq (l.payload p) item then unlink prev p l else l in
        let rest = remove_loop fuel p (l'.next p) item l' in if p == 0 then ok l else rest

    unfoldable pub remove : ℕ → A → LinkedList A → Outcome (LinkedList A)
    remove fuel item l = remove_loop fuel 0 l.head item l

    -- Each round removes the payload of the head.
    unfoldable pub clear : ℕ → LinkedList A → Outcome (LinkedList A)
    clear zero l = if l.head == 0 then ok l else out_of_fuel
    clear (suc fuel) l =
        let rest = remove (suc fuel) (l.payload l.head) l >>= clear fuel in
        if l.head == 0 then ok l else rest
