-- ===== src/Platform/Console/Tests.antt =====
-- The console at a string of two lines.
use tachyon.Base.{ℕ, ◌≤◌, ◌≡◌, refl, [], ◌∷◌, arith}
use tachyon.Platform.Console.{Console, kcon_write, write_loop, print_char, wrap_line, wrap_screen}
use tachyon.Platform.Console.Within.{IsValid, kcon_write-IsValid}

abbrev empty : Console
empty = record { kcon_x = 0; kcon_y = 0; kcon_attr = 0x700; vram = λ i. 0x0F20 }

empty-IsValid : IsValid empty
empty-IsValid = record { column = omega arith; row = omega arith }

-- After a carriage return the text goes on where it was, while the column is 0.
goes_on : (kcon_write (65 ∷ 13 ∷ 66 ∷ []) empty).vram 2 ≡ 0x742
unfolding kcon_write write_loop print_char wrap_line wrap_screen
goes_on = refl

kcon_write-IsValid_example :
    IsValid (kcon_write (65 ∷ 10 ∷ 66 ∷ []) empty)
    × ((j : ℕ) → 2000 ≤ j → (kcon_write (65 ∷ 10 ∷ 66 ∷ []) empty).vram j ≡ empty.vram j)
kcon_write-IsValid_example =
    kcon_write-IsValid (65 ∷ 10 ∷ 66 ∷ []) empty empty-IsValid
      (omega arith, (omega arith, (omega arith, tt)))
