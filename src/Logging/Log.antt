-- ===== src/Logging/Log.antt =====
-- Log (core/tachyon.logging/Log.cc, include/tachyon.logging/Log.h). A string is the list of its
-- bytes; memory read behind a list is 0. A writer is the number of its address, 0 for none.
pub mod Writers
pub mod Number
pub mod Convert
pub mod Format
pub mod Plain
mod Tests
use tachyon.Base.{
  ℕ, zero, suc, ◌+◌, ◌-◌, ◌*◌, ◌/◌, ◌%◌, ◌^◌, ◌≤◌, ◌<◌, min, bit_and, bit_or, ◌≡◌, refl, sym, ap,
  ◌∙◌, ◌≢◌, ◌↔◌, ◌⊎◌, inl, inr, Bool, true, false, not, ◌&&◌, ◌||◌, Option, none, some, List, [],
  ◌∷◌, ◌++◌, map, arith, ltb, leb, ◌==◌, if◌then◌else◌, ltb→lt, lt→ltb, le→ltb, leb→le, le→leb,
  lt→leb, ==_iff, same, same→eq, Bool-cases, Option-cases, passes_below, passes_below_sound, length,
  get_elem?, get_or, set, take, drop, replicate, All, length-append, length-set, length-replicate,
  get_or-set, get_or-replicate, get_or-replicate_lt, get_or_ext, All-set, All-get_or, All-replicate,
  Outcome, ok, fatal, overrun, out_of_fuel, ◌>>=◌, ◌>>◌, kassert, >>=-eq-ok,
}
use tachyon.Base.Bits.{word, u8, u32}

-- The 2^63 of intmax_t's sign.
abbrev pub sign_bit : ℕ
sign_bit = 2 ^ 63

unfoldable pub add_writer : ℕ → List ℕ → List ℕ
add_writer writer [] = []
add_writer writer (w ∷ ws) =
    let rest = add_writer writer ws in if w == 0 then writer ∷ ws else w ∷ rest

unfoldable pub remove_writer : ℕ → List ℕ → List ℕ
remove_writer writer [] = []
remove_writer writer (w ∷ ws) =
    let rest = remove_writer writer ws in if w == writer then 0 ∷ ws else w ∷ rest

-- The calls that multicast makes, in order.
unfoldable pub multicast : List ℕ → List ℕ → List (ℕ × List ℕ)
multicast str [] = []
multicast str (w ∷ ws) =
    let rest = multicast str ws in if not (w == 0) then (w, str) ∷ rest else rest

abbrev pub digit_char : ℕ → ℕ
digit_char rem = if ltb rem 10 then rem + 48 else rem + 97 - 10

-- The do loop of parse_u, lowest digit first; 64 rounds are enough for a word.
unfoldable pub digits_loop : ℕ → ℕ → ℕ → Outcome (List ℕ)
digits_loop zero num base = out_of_fuel
digits_loop (suc fuel) num base =
    let rest = digits_loop fuel (num / base) base in
    if num / base == 0
    then ok (digit_char (num % base) ∷ [])
    else rest >>= (λ ds. ok (digit_char (num % base) ∷ ds))

abbrev pub reverse_onto : List ℕ → List ℕ → List ℕ
reverse_onto [] acc = acc
reverse_onto (x ∷ xs) acc = reverse_onto xs (x ∷ acc)

-- The reversal in place.
abbrev pub reverse : List ℕ → List ℕ
reverse xs = reverse_onto xs []

unfoldable pub fill_up : ℕ → ℕ → List ℕ → List ℕ
fill_up fill width ds = if fill == 0 then ds else ds ++ replicate (width - length ds) fill

-- The text that parse_u leaves in its buffer.
unfoldable pub parse_u : ℕ → ℕ → ℕ → ℕ → Outcome (List ℕ)
parse_u num base fill width = digits_loop 64 num base >>= λ ds. ok (reverse (fill_up fill width ds))

unfoldable pub parse_s : ℕ → ℕ → ℕ → ℕ → Outcome (List ℕ)
parse_s num base fill width =
    if leb sign_bit num
    then parse_u ((word - num) % word) base fill (if width == 0 then 0 else width - 1)
      >>= (λ text. ok (45 ∷ text))
    else parse_u num base fill width

abbrev pub is_digit : ℕ → Bool
is_digit c = leb 48 c && leb c 57

unfoldable pub parse_num_from : ℕ → List ℕ → ℕ
parse_num_from val [] = val
parse_num_from val (c ∷ cs) =
    let rest = parse_num_from ((val * 10 + (c - 48)) % word) cs in if is_digit c then rest else val

unfoldable pub parse_num : List ℕ → ℕ
parse_num str = parse_num_from 0 str

-- CHECKED_APPEND on the text so far.
unfoldable pub checked_append : ℕ → List ℕ → ℕ → List ℕ
checked_append len out c = if ltb (length out) len then out ++ (c ∷ []) else out

unfoldable pub append_all : ℕ → List ℕ → List ℕ → List ℕ
append_all len out [] = out
append_all len out (c ∷ cs) = append_all len (checked_append len out c) cs

-- What follows the label `string`: the text, and spaces up to the width.
unfoldable pub append_padded : ℕ → List ℕ → List ℕ → ℕ → List ℕ
append_padded len out text width =
    append_all len (append_all len out text) (replicate (width - length text) 32)

-- The byte at the head, and the rest.
abbrev pub first : List ℕ → ℕ
first [] = 0
first (c ∷ cs) = c

abbrev pub rest : List ℕ → List ℕ
rest [] = []
rest (c ∷ cs) = cs

-- `while(c >= '0' && c <= '9') c = *fmt++`: the string from the first other byte on.
unfoldable pub skip_digits : List ℕ → List ℕ
skip_digits [] = []
skip_digits (c ∷ cs) = let more = skip_digits cs in if is_digit c then more else c ∷ cs

-- int32_t, as an intmax_t.
abbrev pub sign_extend : ℕ → ℕ
sign_extend n = if ltb (u32 n) (2 ^ 31) then u32 n else u32 n + (2 ^ 64 - 2 ^ 32)

abbrev pub null_text : List ℕ
null_text = 40 ∷ 110 ∷ 117 ∷ 108 ∷ 108 ∷ 41 ∷ []

abbrev pub unknown_text : List ℕ
unknown_text =
    40 ∷ 117 ∷ 110 ∷ 107 ∷ 110 ∷ 111 ∷ 119 ∷ 110 ∷ 32 ∷ 102 ∷ 111 ∷ 114 ∷ 109 ∷ 97 ∷ 116 ∷ 41 ∷ []

-- The bytes of the string at an address.
abbrev pub text_at : (ℕ → List ℕ) → ℕ → List ℕ
text_at texts arg = if arg == 0 then null_text else texts arg

abbrev pub max_number_digits : ℕ
max_number_digits = 0x20

-- A text in `temp`, whose NUL goes behind it.
abbrev pub in_temp : List ℕ → Outcome (List ℕ)
in_temp text = if ltb (length text) max_number_digits then ok text else overrun

abbrev pub number_text : Outcome (List ℕ) → Outcome (List ℕ × ℕ)
number_text written = written >>= in_temp >>= λ text. ok (text, 1)

-- The switch: the text for a conversion, and how many arguments it takes.
unfoldable pub convert : (ℕ → List ℕ) → ℕ → Bool → ℕ → ℕ → Outcome (List ℕ × ℕ)
convert texts c lng width arg =
    if c == 100
    then number_text (parse_s (if lng then arg else sign_extend arg) 10 32 width)
    else if c == 117
    then number_text (parse_s (if lng then arg else u32 arg) 10 32 width)
    else if c == 120
    then number_text (parse_u (if lng then arg else u32 arg) 16 48 width)
    else if c == 112
    then number_text (parse_u arg 16 48 16 >>= λ t. ok (48 ∷ 120 ∷ t))
    else if c == 99
    then ok (if u8 arg == 0 then [] else u8 arg ∷ [], 1)
    else if c == 115
    then ok (text_at texts arg, 1)
    else ok (unknown_text, 0)

-- A conversion as the format string spells it: width, `l`, and the letter with what follows it. A
-- format string is the memory from its address on: its bytes, the NUL at its end, and the bytes behind
-- it; behind the list there are NULs only. The letter may be the NUL, and what follows is then behind it.
pub record Spec : Type 0 where
  pub width : ℕ
  pub lng : Bool
  pub letter : ℕ
  pub after : List ℕ

unfoldable pub read_spec : List ℕ → Spec
read_spec fmt =
    let width = if is_digit (first fmt) then u32 (parse_num fmt) else 0 in
    let fmt1 = skip_digits fmt in
    let lng = first fmt1 == 108 in
    let fmt2 = if lng then rest fmt1 else fmt1 in
    record { width = width; lng = lng; letter = first fmt2; after = rest fmt2 }

-- The loop of format: `i` arguments are taken. One round for each byte of the format string and one
-- for its end are enough.
unfoldable pub format_loop : ℕ → (ℕ → List ℕ) → (ℕ → ℕ) → ℕ → ℕ → List ℕ → List ℕ → Outcome (List ℕ)
format_loop zero texts args i len out fmt = out_of_fuel
format_loop (suc fuel) texts args i len out [] = ok out
format_loop (suc fuel) texts args i len out (c ∷ fmt) =
    let out1 = checked_append len out c in
    let plain = format_loop fuel texts args i len out1 fmt in
    let spec = read_spec fmt in
    let converted = convert texts spec.letter spec.lng spec.width (args i) >>= (λ (text, taken).
      let out2 = append_padded len out text spec.width in
      let more = format_loop fuel texts args (i + taken) len out2 spec.after in
      if leb len (length out2) then ok out2 else more) in
    if c == 0
    then ok out
    else if c == 37
    then converted
    else if leb len (length out1)
    then ok out1
    else plain

-- The text in the buffer; the terminator goes behind it, at the index of its length.
unfoldable pub format : (ℕ → List ℕ) → (ℕ → ℕ) → ℕ → List ℕ → Outcome (List ℕ)
format texts args len fmt = format_loop (length fmt + 1) texts args 0 len [] fmt

abbrev pub max_write_buffer : ℕ
max_write_buffer = 0x400

unfoldable pub write : (ℕ → List ℕ) → (ℕ → ℕ) → List ℕ → List ℕ → Outcome (List (ℕ × List ℕ))
write texts args fmt writers =
    format texts args max_write_buffer fmt >>= (λ text. ok (multicast text writers))
