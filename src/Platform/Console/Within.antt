-- ===== src/Platform/Console/Within.antt =====
-- Where __kcon_write (core/tachyon.platform/x86_common/console.c) writes.
use tachyon.Base.{
  ℕ, zero, suc, ◌+◌, ◌-◌, ◌*◌, ◌≤◌, ◌<◌, bit_or, ◌≡◌, refl, sym, ◌∙◌, ◌≢◌, inl, inr, false, List,
  [], ◌∷◌, arith, leb, ◌==◌, Bool-cases, All,
}
use mathlib.Core.Path.{subst}
use tachyon.Base.Bits.{u16}
use tachyon.Platform.Console.{
  Console, put_cell, move_cells, blank_cells, scroll1, calc_location, cell_of, print_char,
  wrap_line, wrap_screen, write_loop, kcon_write,
}

-- The cursor is on the screen.
pub record IsValid (c : Console) : Type 0 where
  pub column : c.kcon_x < 80
  pub row : c.kcon_y < 25

move_cells-beyond :
    (n source dest : ℕ) (vram : ℕ → ℕ) (j : ℕ)
    → dest + n ≤ j
    → move_cells n source dest vram j ≡ vram j
unfolding move_cells
move_cells-beyond zero source dest vram j beyond = refl
move_cells-beyond (suc n) source dest vram j beyond =
    move_cells-beyond n (source + 1) (dest + 1) (put_cell dest (vram source) vram) j (omega arith)
    ∙ ground arith

blank_cells-beyond :
    (n attr dest : ℕ) (vram : ℕ → ℕ) (j : ℕ)
    → dest + n ≤ j
    → blank_cells n attr dest vram j ≡ vram j
unfolding blank_cells
blank_cells-beyond zero attr dest vram j beyond = refl
blank_cells-beyond (suc n) attr dest vram j beyond =
    blank_cells-beyond n attr (dest + 1) (put_cell dest (bit_or 32 attr) vram) j (omega arith)
    ∙ ground arith

scroll1-beyond : (c : Console) (j : ℕ) → 2000 ≤ j → (scroll1 c).vram j ≡ c.vram j
unfolding scroll1
scroll1-beyond c j beyond =
    blank_cells-beyond 80 c.kcon_attr 1920 (move_cells 1920 80 0 c.vram) j (omega arith)
    ∙ move_cells-beyond 1920 80 0 c.vram j (omega arith)

-- One round for a character that is no carriage return: the cursor stays on the screen, the cell to
-- write next is the cursor's, and no cell behind the screen changes.
pub record Round (c : Console) (s : Console × ℕ) : Type 0 where
  pub valid : IsValid s.0
  pub cursor : s.1 ≡ calc_location s.0
  pub beyond : (j : ℕ) → 2000 ≤ j → (s.0).vram j ≡ c.vram j

-- The tests on the row.
on_screen :
    (c : Console) (cur y : ℕ)
    → c.kcon_x ≡ 0
    → c.kcon_y ≡ suc y
    → suc y ≤ 25
    → cur ≡ 80 * suc y - 1
    → (o : Console) → ((j : ℕ) → 2000 ≤ j → c.vram j ≡ o.vram j)
    → Round o ((wrap_screen (c, cur)).0, (wrap_screen (c, cur)).1 + 1)
unfolding wrap_screen
on_screen c cur y column row fits at o same_beyond = elim (Bool-cases (leb 25 c.kcon_y)) [
  | inl h ↦ rw h (record {
    valid = record { column = unfold scroll1 in omega arith; row = omega arith };
    cursor = unfold scroll1 in omega arith;
    beyond = λ j far. scroll1-beyond c j far ∙ same_beyond j far;
  })
  | inr h ↦ rw h (record {
    valid = record { column = omega arith; row = ground arith };
    cursor = omega arith;
    beyond = same_beyond;
  })
]

no_wrap_screen : (c : Console) (cur : ℕ) → c.kcon_y < 25 → wrap_screen (c, cur) ≡ (c, cur)
unfolding wrap_screen
no_wrap_screen c cur row = let h : leb 25 c.kcon_y ≡ false = ground arith in rw h

char-Round :
    (c : Console) (ch : ℕ)
    → IsValid c
    → ch ≢ 13
    → Round c (
      (wrap_screen (wrap_line ch (print_char ch (c, calc_location c)))).0,
      (wrap_screen (wrap_line ch (print_char ch (c, calc_location c)))).1 + 1,
    )
unfolding wrap_line print_char
char-Round c ch valid no_return =
    let nr : (ch == 13) ≡ false = ground arith in
    let y1 : u16 (c.kcon_y + 1) ≡ suc c.kcon_y = omega (arith, valid.row) in
    let x1 : u16 (c.kcon_x + 1) ≡ c.kcon_x + 1 = omega (arith, valid.column) in
    let narrow : leb 80 c.kcon_x ≡ false = ground (arith, valid.column) in
    elim (Bool-cases (ch == 10)) [
      | inl newline ↦
          rw (newline, nr, narrow, y1)
            (on_screen (record c { kcon_x = 0; kcon_y = suc c.kcon_y }) (80 * suc c.kcon_y - 1)
              c.kcon_y refl refl (omega (arith, valid.row)) refl c (λ j far. refl))
      | inr printed ↦ elim (Bool-cases (leb 80 (c.kcon_x + 1))) [
        | inl full ↦
            rw (printed, nr, x1, full, y1)
              (on_screen
                (record c {
                  kcon_x = 0;
                  kcon_y = suc c.kcon_y;
                  vram = put_cell (calc_location c) (cell_of ch c.kcon_attr) c.vram;
                })
                (80 * suc c.kcon_y - 1) c.kcon_y refl refl (omega (arith, valid.row)) refl c
                put_beyond)
        | inr room ↦
            let inside : c.kcon_x + 1 < 80 = ground arith in
            rw (printed, nr, x1, room)
              (rw
                (no_wrap_screen
                  (record c {
                    kcon_x = c.kcon_x + 1;
                    vram = put_cell (calc_location c) (cell_of ch c.kcon_attr) c.vram;
                  })
                  (calc_location c) valid.row)
                (record {
                  valid = record { column = inside; row = valid.row };
                  cursor = omega arith;
                  beyond = put_beyond;
                }))
      ]
    ]
  where
    put_beyond :
        (j : ℕ) → 2000 ≤ j → put_cell (calc_location c) (cell_of ch c.kcon_attr) c.vram j ≡ c.vram j
    put_beyond j far =
        let other : (j == calc_location c) ≡ false = ground (arith, valid.column, valid.row) in
        rw other

-- No carriage return in a string.
abbrev pub HasNoReturn : List ℕ → Type 0
HasNoReturn str = All (λ ch. ch ≢ 13) str

loop-Round :
    (str : List ℕ) (c : Console) (s : Console × ℕ)
    → HasNoReturn str
    → Round c s
    → Round c (write_loop str s)
unfolding write_loop
loop-Round [] c s no_return here = here
loop-Round (ch ∷ str) c s no_return here =
    let next = char-Round s.0 ch here.valid no_return.0 in
    loop-Round str c
      (
        (wrap_screen (wrap_line ch (print_char ch s))).0,
        (wrap_screen (wrap_line ch (print_char ch s))).1 + 1,
      )
      no_return.1
      (subst
        (λ (t : ℕ). Round c (
          (wrap_screen (wrap_line ch (print_char ch (s.0, t)))).0,
          (wrap_screen (wrap_line ch (print_char ch (s.0, t)))).1 + 1,
        ))
        (sym here.cursor)
        (record {
          valid = next.valid;
          cursor = next.cursor;
          beyond = λ j far. next.beyond j far ∙ here.beyond j far;
        }))

-- Writing a string without carriage returns keeps the cursor on the screen, and changes no memory
-- behind the screen.
pub kcon_write-IsValid :
    (str : List ℕ) (c : Console)
    → IsValid c
    → HasNoReturn str
    → IsValid (kcon_write str c) × ((j : ℕ) → 2000 ≤ j → (kcon_write str c).vram j ≡ c.vram j)
unfolding kcon_write
kcon_write-IsValid str c valid no_return =
    let r =
      loop-Round str c (c, calc_location c) no_return
        (record { valid = valid; cursor = refl; beyond = λ j far. refl }) in
    (r.valid, r.beyond)
