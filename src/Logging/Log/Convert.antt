-- ===== src/Logging/Log/Convert.antt =====
-- The conversions of Log::format (core/tachyon.logging/Log.cc): when a number fits its temporary text.
use tachyon.Base.{
  ℕ, ◌-◌, ◌%◌, ◌^◌, ◌≤◌, ◌<◌, ◌≡◌, refl, ap, ◌∙◌, ◌⊎◌, inl, inr, Bool, List, [], ◌∷◌, arith, ltb,
  leb, ◌==◌, if◌then◌else◌, Bool-cases, length, Outcome, ok, overrun, ◌>>=◌,
}
use tachyon.Base.Bits.{word, u8, u32}
use tachyon.Logging.Log.{
  sign_bit, parse_u, parse_s, sign_extend, unknown_text, text_at, number_text, convert,
}
use tachyon.Logging.Log.Number.{parse_u-Written}

-- A text that a routine has written, of at most `k` bytes or as many as its width asks for.
pub record Text (k width : ℕ) (r : Outcome (List ℕ)) : Type 0 where
  pub text : List ℕ
  pub returns : r ≡ ok text
  pub at_most : (length text ≤ k) ⊎ (length text ≤ width)

parse_u-Text :
    (num base fill width : ℕ)
    → num < 2 ^ 64
    → (base ≡ 10) ⊎ (base ≡ 16)
    → Text 20 width (parse_u num base fill width)
parse_u-Text num base fill width fits (inl e) =
    let w =
      parse_u-Written 10 20 num fill width (omega arith) (omega arith) (omega arith)
        (omega arith) in
    record {
      text = w.text;
      returns = ap (λ (b : ℕ). parse_u num b fill width) e ∙ w.returns;
      at_most = w.at_most;
    }
parse_u-Text num base fill width fits (inr e) =
    let w =
      parse_u-Written 16 16 num fill width (omega arith) (omega arith) (omega arith)
        (omega arith) in
    record {
      text = w.text;
      returns = ap (λ (b : ℕ). parse_u num b fill width) e ∙ w.returns;
      at_most = ground (arith, w.at_most);
    }

-- The sign takes one byte of the width.
parse_s-Text : (num fill width : ℕ) → num < 2 ^ 64 → Text 21 width (parse_s num 10 fill width)
unfolding parse_s
parse_s-Text num fill width fits = elim (Bool-cases (leb sign_bit num)) [
  | inl h ↦
      let t =
        parse_u-Text ((word - num) % word) 10 fill (if width == 0 then 0 else width - 1)
          (omega arith) (inl refl) in
      record {
        text = 45 ∷ t.text;
        returns = rw (h, t.returns);
        at_most = ground (arith, t.at_most);
      }
  | inr h ↦
      let t = parse_u-Text num 10 fill width fits (inl refl) in
      record { text = t.text; returns = rw (h, t.returns); at_most = ground (arith, t.at_most) }
]

-- How a conversion ends: with a text, or behind `temp`, for a width of 32 and more.
pub data Converted (width : ℕ) (r : Outcome (List ℕ × ℕ)) : Type 0 where
  made : (text : List ℕ) → (taken : ℕ) → r ≡ ok (text, taken) → Converted width r
  over_temp : r ≡ overrun → 32 ≤ width → Converted width r

number_text-Converted :
    (k width : ℕ) (r : Outcome (List ℕ)) → k < 32 → Text k width r → Converted width (number_text r)
number_text-Converted k width r short t = elim (Bool-cases (ltb (length t.text) 32)) [
  | inl fits ↦ made t.text 1 (rw (t.returns, fits))
  | inr long ↦ over_temp (rw (t.returns, long)) (ground (arith, t.at_most))
]

sign_extend-fits : (n : ℕ) → sign_extend n < 2 ^ 64
sign_extend-fits n = ground arith

pub convert-Converted :
    (texts : ℕ → List ℕ) (c : ℕ) (lng : Bool) (width arg : ℕ)
    → arg < 2 ^ 64
    → Converted width (convert texts c lng width arg)
unfolding convert
convert-Converted texts c lng width arg fits = elim (Bool-cases (c == 100)) [
  | inl d ↦ rw d (
      number_text-Converted 21 width _ (omega arith) (
        parse_s-Text (if lng then arg else sign_extend arg) 32 width
          (ground (arith, sign_extend-fits arg))))
  | inr nd ↦ elim (Bool-cases (c == 117)) [
    | inl u ↦
        rw (nd, u)
          (number_text-Converted 21 width _ (omega arith)
            (parse_s-Text (if lng then arg else u32 arg) 32 width (ground arith)))
    | inr nu ↦ elim (Bool-cases (c == 120)) [
      | inl x ↦
          rw (nd, nu, x)
            (number_text-Converted 20 width _ (omega arith)
              (parse_u-Text (if lng then arg else u32 arg) 16 48 width (ground arith) (inr refl)))
      | inr nx ↦ elim (Bool-cases (c == 112)) [
        | inl p ↦
            let t = parse_u-Text arg 16 48 16 fits (inr refl) in
            rw (nd, nu, nx, p)
              (number_text-Converted 22 width (parse_u arg 16 48 16 >>= (λ t'. ok (48 ∷ 120 ∷ t')))
                (omega arith)
                (record {
                  text = 48 ∷ 120 ∷ t.text;
                  returns = rw t.returns;
                  at_most = inl (ground (arith, t.at_most));
                }))
        | inr np ↦ elim (Bool-cases (c == 99)) [
          | inl ch ↦ made (if u8 arg == 0 then [] else u8 arg ∷ []) 1 (rw (nd, nu, nx, np, ch))
          | inr nc ↦ elim (Bool-cases (c == 115)) [
            | inl s ↦ made (text_at texts arg) 1 (rw (nd, nu, nx, np, nc, s))
            | inr ns ↦ made unknown_text 0 (rw (nd, nu, nx, np, nc, ns))
          ]
        ]
      ]
    ]
  ]
]
