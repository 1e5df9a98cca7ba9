-- ===== src/Memory/CoreHeap/Blocks.antt =====
-- The heap as a list of blocks: all but the last one have a footer, and the last one is free.
use tachyon.Base.{
  ℕ, ◌+◌, ◌-◌, ◌%◌, ◌^◌, ◌≤◌, ◌<◌, ◌≡◌, ◌∙◌, ◌⊎◌, inl, inr, Bool, true, false, not, ◌&&◌, List, [],
  ◌∷◌, arith, leb, if◌then◌else◌, same,
}
use tachyon.Memory.PageSource.{PageSource}
use tachyon.Memory.CoreHeap.{CoreHeap, Words}
use tachyon.Memory.CoreHeap.Words.{flag}

pub record Block : Type 0 where
  pub size : ℕ
  pub present : Bool

abbrev pub block : ℕ → Bool → Block
block size present = record { size = size; present = present }

-- A block takes two words besides its data.
abbrev pub span : Block → ℕ
span b = b.size + 16

abbrev pub total : List Block → ℕ
total [] = 0
total (b ∷ bs) = span b + total bs

abbrev pub IsBlock : Words → ℕ → Block → Type 0
IsBlock m p b = (b.size % 8 ≡ 0) × (m p ≡ b.size + flag b.present)

abbrev pub IsFooted : Words → ℕ → Block → Type 0
IsFooted m p b = m (p + 8 + b.size) ≡ b.size + flag b.present + 2

abbrev pub Seg : Words → ℕ → List Block → Type 0
Seg m p [] = Unit
Seg m p (b ∷ bs) = IsBlock m p b × IsFooted m p b × Seg m (p + span b) bs

-- Address `a` belongs to a block in use.
abbrev pub Live : ℕ → List Block → ℕ → Type 0
Live p [] a = ⊥
Live p (b ∷ bs) a = ((b.present ≡ true) × (p ≤ a) × (a < p + span b)) ⊎ Live (p + span b) bs a

-- From `p` to the top of the heap stand the blocks `bs` and then a free block with `last` bytes.
pub record Shape (src : PageSource) (h : CoreHeap src) (p : ℕ) (bs : List Block) (last : ℕ)
    : Type 0 where
  pub seg : Seg h.words p bs
  pub tail : IsBlock h.words (p + total bs) (block last false)
  pub ends : p + total bs + last + 16 ≡ src.top h.alloc
  pub bounded : src.top h.alloc < 2 ^ 64
  pub pages : src.page h.alloc % 8 ≡ 0

-- A segment depends on its own addresses alone.
pub Seg-frame :
    (m m' : Words) (p : ℕ) (bs : List Block)
    → Seg m p bs
    → ((a : ℕ) → p ≤ a → a < p + total bs → m' a ≡ m a)
    → Seg m' p bs
Seg-frame m m' p [] s same = tt
Seg-frame m m' p (b ∷ bs) s same = (
  (s.0.0, same p (omega arith) (omega arith) ∙ s.0.1),
  same (p + 8 + b.size) (omega arith) (omega arith) ∙ s.1,
  Seg-frame m m' (p + span b) bs s.2 (λ a lo hi. same a (omega arith) (omega arith)),
)

pub Live-le : (p : ℕ) (bs : List Block) (a : ℕ) → Live p bs a → p ≤ a
Live-le p [] a live = absurd live
Live-le p (b ∷ bs) a (inl here) = here.1
Live-le p (b ∷ bs) a (inr there) = omega (arith, Live-le (p + span b) bs a there)

-- First fit on the list: the blocks, the free block at the end and the offset of the new block.
abbrev pub has_room : ℕ → Block → Bool
has_room n b = not b.present && leb (n + 16) b.size

abbrev pub place_blocks : ℕ → List Block → List Block
place_blocks n [] = block n true ∷ []
place_blocks n (b ∷ bs) =
    if has_room n b
    then block n true ∷ block (b.size - n - 16) false ∷ bs
    else b ∷ place_blocks n bs

abbrev pub place_last : ℕ → List Block → ℕ → ℕ
place_last n [] last = last - n - 16
place_last n (b ∷ bs) last = if has_room n b then last else place_last n bs last

abbrev pub place_offset : ℕ → List Block → ℕ
place_offset n [] = 0
place_offset n (b ∷ bs) = if has_room n b then 0 else span b + place_offset n bs
