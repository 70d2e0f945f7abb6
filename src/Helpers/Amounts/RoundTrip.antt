-- ===== src/Helpers/Amounts/RoundTrip.antt =====
-- Printing an amount and parsing it again.
mod Tests
use klingdex.Prelude.{
  ℕ, zero, suc, ◌+◌, ◌-◌, ◌*◌, ◌/◌, ◌%◌, ◌^◌, ◌≤◌, ◌<◌, ◌≡◌, refl, sym, ap, ◌∙◌, true, false, ◌&&◌,
  none, some, List, [], ◌∷◌, ◌++◌, ltb, ◌==◌, length, is_empty, replicate, take, ok, arith,
  length-append, length-replicate, Bool-cases, inl, inr, take-length-append, lt→ltb, ==_iff,
}
use mathlib.Core.List.{append-nil}
use native.Mathlib.Nat.{div-add-mod', pow-suc, mul-one, mod-lt, one-le-pow}
use klingdex.Helpers.Amounts.{
  to_decimal, decimal, zero_padded, trim_zeros, format_amount, split_point, amount_parts,
  all_digits, fit, value, parse_amount,
}
use klingdex.Helpers.Amounts.Digits.{
  value-append, all_digits-append, all_digits-zeros, value_shift, value-zeros, to_decimal-value,
  to_decimal-digits, to_decimal-length, decimal-nonempty, nonempty-append, all_digits-front,
  trim_zeros-append, split_point_digits, split_point-append, fit_front,
}

-- A text with these parts is read as their value.
parse_of_parts :
    (s whole frac : List ℕ) (decimals n : ℕ)
    → amount_parts s ≡ (whole, frac)
    → is_empty s ≡ false
    → is_empty (whole ++ fit decimals frac) ≡ false
    → all_digits whole ≡ true
    → all_digits frac ≡ true
    → value 0 (whole ++ fit decimals frac) ≡ n
    → n < 2 ^ 64
    → parse_amount s decimals ≡ ok n
unfolding parse_amount
parse_of_parts s whole frac decimals n e f g a b v h =
    rw (e, f, g, a, b, v, lt→ltb n (2 ^ 64) h) refl

parts_whole : (xs : List ℕ) → all_digits xs ≡ true → amount_parts xs ≡ (xs, [])
unfolding amount_parts
parts_whole xs h = rw (amount_parts, split_point_digits xs h) refl

parts_point :
    (xs ys : List ℕ)
    → is_empty xs ≡ false
    → all_digits xs ≡ true
    → amount_parts (xs ++ (b'.' ∷ ys)) ≡ (xs, ys)
unfolding amount_parts
parts_point [] ys ne h = cc
parts_point (c ∷ cs) ys ne h = rw (amount_parts, split_point-append (c ∷ cs) ys h) refl

value_of_decimal :
    (n : ℕ) (ys : List ℕ) → value 0 (decimal n ++ ys) ≡ n * 10 ^ length ys + value 0 ys
value_of_decimal n ys =
    value-append 0 (decimal n) ys ∙ rw (to_decimal-value (suc n) n (omega arith)) (value_shift n ys)

fit_zeros : (d : ℕ) → fit d [] ≡ replicate d b'0'
fit_zeros d =
    let e = length-replicate {A = ℕ} d b'0' in
    fit_front d [] (replicate d b'0') d refl (omega (arith, e)) e

-- With no point in the text.
parse-whole :
    (n decimals : ℕ)
    → n * 10 ^ decimals < 2 ^ 64
    → parse_amount (decimal n) decimals ≡ ok (n * 10 ^ decimals)
unfolding all_digits
parse-whole n decimals h =
    let digits = to_decimal-digits (suc n) n in
    let e = length-replicate {A = ℕ} decimals b'0' in
    parse_of_parts (decimal n) (decimal n) [] decimals (n * 10 ^ decimals)
      (parts_whole (decimal n) digits) (decimal-nonempty n)
      (nonempty-append (decimal n) (fit decimals []) (decimal-nonempty n)) digits refl
      (rw
        (fit_zeros decimals, value_of_decimal n (replicate decimals b'0'), value-zeros decimals, e)
        (omega arith))
      h

zero_padded-length :
    (frac d : ℕ) → frac < 10 ^ suc d → length (zero_padded (suc d) (decimal frac)) ≡ suc d
zero_padded-length frac d h =
    rw
      (
        length-append (replicate (suc d - length (decimal frac)) b'0') (decimal frac),
        length-replicate {A = ℕ} (suc d - length (decimal frac)) b'0',
      )
      (omega (arith, to_decimal-length (suc frac) frac d h))

zero_padded-value : (frac d : ℕ) → value 0 (zero_padded d (decimal frac)) ≡ frac
zero_padded-value frac d =
    value-append 0 (replicate (d - length (decimal frac)) b'0') (decimal frac)
    ∙ rw (value-zeros (d - length (decimal frac))) (to_decimal-value (suc frac) frac (omega arith))

zero_padded-digits : (frac d : ℕ) → all_digits (zero_padded d (decimal frac)) ≡ true
zero_padded-digits frac d =
    all_digits-append (replicate (d - length (decimal frac)) b'0') (decimal frac)
      (all_digits-zeros (d - length (decimal frac))) (to_decimal-digits (suc frac) frac)

-- With a point.
parse-point :
    (whole frac d : ℕ)
    → frac < 10 ^ suc d
    → whole * 10 ^ suc d + frac < 2 ^ 64
    → parse_amount
        (decimal whole ++ (b'.' ∷ trim_zeros (zero_padded (suc d) (decimal frac))))
        (suc d)
      ≡ ok (whole * 10 ^ suc d + frac)
parse-point whole frac d hf h =
    let s = zero_padded (suc d) (decimal frac) in
    let (k, app, len) = trim_zeros-append s in
    let total = zero_padded-length frac d hf in
    let digits = to_decimal-digits (suc whole) whole in
    let filled = decimal-nonempty whole in
    let tail : all_digits (trim_zeros s) ≡ true =
      all_digits-front (trim_zeros s) (replicate k b'0')
        (rw app (zero_padded-digits frac (suc d))) in
    let sum = value_of_decimal whole s in
    parse_of_parts (decimal whole ++ (b'.' ∷ trim_zeros s)) (decimal whole) (trim_zeros s) (suc d)
      (whole * 10 ^ suc d + frac) (parts_point (decimal whole) (trim_zeros s) filled digits)
      (nonempty-append (decimal whole) (b'.' ∷ trim_zeros s) filled)
      (nonempty-append (decimal whole) (fit (suc d) (trim_zeros s)) filled) digits tail
      (rw
        (
          fit_front (suc d) (trim_zeros s) s k app len total,
          sum,
          total,
          zero_padded-value frac (suc d),
        )
        refl)
      h

-- Every amount of 64 bits is printed, with any number of decimals, as a text that parses back to
-- it.
pub parse-format_amount :
    (amount decimals : ℕ)
    → amount < 2 ^ 64
    → parse_amount (format_amount amount decimals) decimals ≡ ok amount
unfolding format_amount
parse-format_amount amount zero h = rw (mul-one amount) at (parse-whole amount 0 (omega arith))
parse-format_amount amount (suc d) h =
    let e = div-add-mod' amount (10 ^ suc d) in
    let more : (suc d == 0) ≡ false = ground arith in
    let low = mod-lt amount (one-le-pow (suc d) 10 (omega arith)) in
    elim (Bool-cases (amount % 10 ^ suc d == 0)) [
      | inl whole ↦
          let f : amount / 10 ^ suc d * 10 ^ suc d ≡ amount =
            omega (arith, e, (==_iff (amount % 10 ^ suc d) 0).0 whole) in
          rw (more, whole) (rw f at (parse-whole (amount / 10 ^ suc d) (suc d) (rw f h)))
      | inr point ↦
          rw (more, point)
            (rw e at (parse-point (amount / 10 ^ suc d) (amount % 10 ^ suc d) d low (rw e h)))
    ]
