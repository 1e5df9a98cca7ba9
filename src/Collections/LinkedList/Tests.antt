-- ===== src/Collections/LinkedList/Tests.antt =====
-- Lists of numbers, and the theorems of LinkedList at them.
use tachyon.Base.{ℕ, refl, false, [], ◌∷◌, arith, ◌==◌}
use tachyon.Collections.LinkedList.{LinkedList, add, make_empty, remove, clear}
use tachyon.Collections.LinkedList.Chains.{Represents, make_empty-Represents, add-Represents}
use tachyon.Collections.LinkedList.Sweep.{Removed, remove-Removed}
use tachyon.Collections.LinkedList.Clear.{Emptied, clear-Emptied}
use tachyon.Collections.LinkedList.Dangling.{Dangling, remove-Dangling}

abbrev start : LinkedList ℕ
start = record { count = 9; head = 9; next = λ x. 9; payload = λ x. 9; live = λ x. false }

-- 7 8 7, at the nodes 0x30, 0x20 and 0x10.
abbrev three : LinkedList ℕ
three = add 0x30 7 (add 0x20 8 (add 0x10 7 (make_empty start)))

three-Represents : Represents three (0x30 ∷ 0x20 ∷ 0x10 ∷ [])
three-Represents =
    add-Represents (add 0x20 8 (add 0x10 7 (make_empty start))) (0x20 ∷ 0x10 ∷ []) 0x30 7
      (add-Represents (add 0x10 7 (make_empty start)) (0x10 ∷ []) 0x20 8
        (add-Represents (make_empty start) [] 0x10 7 (make_empty-Represents start) (omega arith) tt
          (omega arith))
        (omega arith) (omega arith, tt) (omega arith))
      (omega arith) (omega arith, (omega arith, tt)) (omega arith)

-- 7 7, at the nodes 0x20 and 0x10.
abbrev twice : LinkedList ℕ
twice = add 0x20 7 (add 0x10 7 (make_empty start))

twice-Represents : Represents twice (0x20 ∷ 0x10 ∷ [])
twice-Represents =
    add-Represents (add 0x10 7 (make_empty start)) (0x10 ∷ []) 0x20 7
      (add-Represents (make_empty start) [] 0x10 7 (make_empty-Represents start) (omega arith) tt
        (omega arith))
      (omega arith) (omega arith, tt) (omega arith)

remove-Removed_example : Removed ◌==◌ 7 3 three (0x30 ∷ 0x20 ∷ 0x10 ∷ [])
unfolding add make_empty
remove-Removed_example =
    remove-Removed ◌==◌ 7 3 three (0x30 ∷ 0x20 ∷ 0x10 ∷ []) three-Represents (refl, (refl, tt))
      (omega arith)

remove-Dangling_example : Dangling 0x10 (remove ◌==◌ 2 7 twice)
unfolding add make_empty
remove-Dangling_example = remove-Dangling ◌==◌ 7 0 twice 0x20 0x10 twice-Represents refl refl

-- 6 7, at the nodes 0x20 and 0x10.
abbrev pair : LinkedList ℕ
pair = add 0x20 6 (add 0x10 7 (make_empty start))

pair-Represents : Represents pair (0x20 ∷ 0x10 ∷ [])
pair-Represents =
    add-Represents (add 0x10 7 (make_empty start)) (0x10 ∷ []) 0x20 6
      (add-Represents (make_empty start) [] 0x10 7 (make_empty-Represents start) (omega arith) tt
        (omega arith))
      (omega arith) (omega arith, tt) (omega arith)

clear-Emptied_example : Emptied ◌==◌ (0x20 ∷ 0x10 ∷ []) (clear ◌==◌ 2 pair)
unfolding add make_empty
clear-Emptied_example =
    clear-Emptied ◌==◌ 2 pair (0x20 ∷ 0x10 ∷ []) pair-Represents (refl, (refl, tt), (refl, tt, tt))
      (omega arith)
