-- ===== src/Logging/Log/Tests.antt =====
-- The log on small tables and short strings, and the theorems at them.
use tachyon.Base.{
  ℕ, ◌≡◌, refl, inr, true, false, List, [], ◌∷◌, arith, ◌==◌, if◌then◌else◌, ok, overrun,
}
use tachyon.Logging.Log.{
  digits_loop, fill_up, parse_u, parse_s, parse_num, parse_num_from, checked_append, append_all,
  append_padded, skip_digits, convert, read_spec, format_loop, format,
}
use tachyon.Logging.Log.Writers.{holds}
use tachyon.Logging.Log.Number.{parse_num-parse_u}
use tachyon.Logging.Log.Plain.{format_plain}

abbrev table : List ℕ
table = 5 ∷ 0 ∷ 7 ∷ 0 ∷ []

no_nine : holds 9 table ≡ false
unfolding holds
no_nine = refl

has_seven : holds 7 table ≡ true
unfolding holds
has_seven = refl

parse_num-parse_u_example :
    (text : List ℕ) × (parse_u 1024 10 48 6 ≡ ok text) × (parse_num text ≡ 1024)
parse_num-parse_u_example = parse_num-parse_u 1024 48 6 (omega arith) (inr refl)

abbrev arguments : ℕ → ℕ
arguments i = if i == 0 then 42 else 255

abbrev no_texts : ℕ → List ℕ
no_texts p = []

-- "%4d %x" with 42 and 255.
formats :
    format no_texts arguments 20 (37 ∷ 52 ∷ 100 ∷ 32 ∷ 37 ∷ 120 ∷ [])
    ≡ ok (32 ∷ 32 ∷ 52 ∷ 50 ∷ 32 ∷ 102 ∷ 102 ∷ [])
unfolding format format_loop checked_append append_padded append_all read_spec skip_digits convert
    parse_s parse_u digits_loop fill_up parse_num parse_num_from
formats = refl

-- "%32x" is written behind the 32 bytes of the temporary text.
overruns : format no_texts arguments 99 (37 ∷ 51 ∷ 50 ∷ 120 ∷ 0 ∷ []) ≡ overrun
unfolding format format_loop checked_append append_padded append_all read_spec skip_digits convert
    parse_s parse_u digits_loop fill_up parse_num parse_num_from
overruns = refl

format_plain_example : format no_texts arguments 2 (65 ∷ 66 ∷ 67 ∷ 0 ∷ 37 ∷ []) ≡ ok (65 ∷ 66 ∷ [])
format_plain_example =
    format_plain no_texts arguments 2 (65 ∷ 66 ∷ 67 ∷ []) (37 ∷ [])
      ((omega arith, omega arith), ((omega arith, omega arith), ((omega arith, omega arith), tt)))
      (omega arith)
