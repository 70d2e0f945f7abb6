-- ===== src/Helpers/Amounts/Digits.antt =====
-- The digits of an amount, and their value.
use klingdex.Prelude.{
  ℕ, zero, suc, ◌+◌, ◌-◌, ◌*◌, ◌/◌, ◌%◌, ◌^◌, ◌≤◌, ◌<◌, ◌≡◌, refl, sym, ap, true, false, ◌&&◌, none,
  some, List, [], ◌∷◌, ◌++◌, ltb, ◌==◌, length, is_empty, replicate, take, arith, length-append,
  Bool-cases, inl, inr, take-length-append, lt→ltb,
}
use mathlib.Core.List.{append-nil}
use native.Mathlib.Nat.{pow-suc}
use klingdex.Helpers.Amounts.{to_decimal, decimal, trim_zeros, split_point, all_digits, fit, value}

pub value-append : (acc : ℕ) (xs ys : List ℕ) → value acc (xs ++ ys) ≡ value (value acc xs) ys
unfolding value
value-append acc [] ys = refl
value-append acc (c ∷ cs) ys = value-append (acc * 10 + (c - b'0')) cs ys

pub all_digits-append :
    (xs ys : List ℕ) → all_digits xs ≡ true → all_digits ys ≡ true → all_digits (xs ++ ys) ≡ true
unfolding all_digits
all_digits-append [] ys h k = k
all_digits-append (x ∷ xs) ys h k = ground (arith, all_digits-append xs ys)

pub all_digits-zeros : (n : ℕ) → all_digits (replicate n b'0') ≡ true
unfolding all_digits
all_digits-zeros zero = refl
all_digits-zeros (suc n) = all_digits-zeros n

-- The accumulator moves up by a place for each digit.
pub value_shift : (acc : ℕ) (cs : List ℕ) → value acc cs ≡ acc * 10 ^ length cs + value 0 cs
unfolding value
value_shift acc [] = omega arith
value_shift acc (c ∷ cs) =
    let a = value_shift (acc * 10 + (c - b'0')) cs in
    let b = value_shift (0 * 10 + (c - b'0')) cs in rw (a, b, pow-suc 10 (length cs)) (grind arith)

pub value-zeros : (n : ℕ) → value 0 (replicate n b'0') ≡ 0
unfolding value
value-zeros zero = refl
value-zeros (suc n) = value-zeros n

pub to_decimal-value : (fuel n : ℕ) → n < fuel → value 0 (to_decimal fuel n) ≡ n
unfolding to_decimal value
to_decimal-value zero n h = absurd (omega arith)
to_decimal-value (suc fuel) n h = elim (Bool-cases (ltb n 10)) [
  | inl small ↦ rw small (omega arith)
  | inr large ↦
      rw
        (
          large,
          value-append 0 (to_decimal fuel (n / 10)) ((b'0' + n % 10) ∷ []),
          to_decimal-value fuel (n / 10) (ground arith),
        )
        (omega arith)
]

pub to_decimal-digits : (fuel n : ℕ) → all_digits (to_decimal fuel n) ≡ true
unfolding to_decimal all_digits
to_decimal-digits zero n = refl
to_decimal-digits (suc fuel) n = elim (Bool-cases (ltb n 10)) [
  | inl small ↦ rw small (ground arith)
  | inr large ↦ rw large (
      all_digits-append (to_decimal fuel (n / 10)) ((b'0' + n % 10) ∷ [])
        (to_decimal-digits fuel (n / 10)) (ground arith))
]

pub to_decimal-length : (fuel n d : ℕ) → n < 10 ^ suc d → length (to_decimal fuel n) ≤ suc d
unfolding to_decimal
to_decimal-length zero n d h = omega arith
to_decimal-length (suc fuel) n zero h = rw (lt→ltb n 10 (omega arith)) (omega arith)
to_decimal-length (suc fuel) n (suc d) h = elim (Bool-cases (ltb n 10)) [
  | inl small ↦ rw small (omega arith)
  | inr large ↦
      let e = pow-suc 10 (suc d) in
      let k = rw e at h in
      rw (large, length-append (to_decimal fuel (n / 10)) ((b'0' + n % 10) ∷ []))
        (omega (arith, to_decimal-length fuel (n / 10) d (omega arith)))
]

append-nonempty : (xs : List ℕ) (c : ℕ) → is_empty (xs ++ (c ∷ [])) ≡ false
append-nonempty [] c = refl
append-nonempty (x ∷ xs) c = refl

pub decimal-nonempty : (n : ℕ) → is_empty (decimal n) ≡ false
unfolding to_decimal
decimal-nonempty n = elim (Bool-cases (ltb n 10)) [
  | inl small ↦ rw small refl
  | inr large ↦ rw large (append-nonempty (to_decimal n (n / 10)) (b'0' + n % 10))
]

pub nonempty-append : (xs ys : List ℕ) → is_empty xs ≡ false → is_empty (xs ++ ys) ≡ false
nonempty-append [] ys h = cc
nonempty-append (x ∷ xs) ys h = refl

pub all_digits-front : (xs ys : List ℕ) → all_digits (xs ++ ys) ≡ true → all_digits xs ≡ true
unfolding all_digits
all_digits-front [] ys h = refl
all_digits-front (x ∷ xs) ys h = ground (arith, all_digits-front xs ys)

cut_tail :
    (front cs : List ℕ) (k : ℕ)
    → front ++ replicate k b'0' ≡ cs
    → is_empty front ≡ true
    → replicate k b'0' ≡ cs
cut_tail [] cs k e h = e
cut_tail (x ∷ xs) cs k e h = cc

cut_length : (front : List ℕ) (n k : ℕ) → length front + k ≡ n → is_empty front ≡ true → k ≡ n
cut_length [] n k e h = omega arith
cut_length (x ∷ xs) n k e h = cc

-- What is cut off is zeros.
pub trim_zeros-append :
    (s : List ℕ)
    → (k : ℕ) × (trim_zeros s ++ replicate k b'0' ≡ s) × (length (trim_zeros s) + k ≡ length s)
unfolding trim_zeros
trim_zeros-append [] = (0, refl, refl)
trim_zeros-append (c ∷ cs) =
    let (k, e, n) = trim_zeros-append cs in
    elim (Bool-cases (is_empty (trim_zeros cs) && c == b'0')) [
      | inl cut ↦ (
        suc k,
        rw cut (ground (arith, cut_tail (trim_zeros cs) cs k e)),
        rw cut (ground (arith, cut_length (trim_zeros cs) (length cs) k n)),
      )
      | inr kept ↦ (k, rw kept (ap (λ t. c ∷ t) e), rw kept (omega (arith, n)))
    ]

pub split_point_digits : (xs : List ℕ) → all_digits xs ≡ true → split_point xs ≡ none
unfolding split_point all_digits
split_point_digits [] h = refl
split_point_digits (x ∷ xs) h = ground (arith, split_point_digits xs)

pub split_point-append :
    (xs ys : List ℕ) → all_digits xs ≡ true → split_point (xs ++ (b'.' ∷ ys)) ≡ some (xs, ys)
unfolding split_point all_digits
split_point-append [] ys h = refl
split_point-append (x ∷ xs) ys h = ground (arith, split_point-append xs ys)

take-length : (s : List ℕ) → take (length s) s ≡ s
take-length s = rw append-nil at (take-length-append s [])

pub fit_front :
    (d : ℕ) (front s : List ℕ) (k : ℕ)
    → front ++ replicate k b'0' ≡ s
    → length front + k ≡ length s
    → length s ≡ d
    → fit d front ≡ s
fit_front d front s k e n hd =
    let m : d - length front ≡ k = omega arith in rw (m, e, sym hd) (take-length s)
