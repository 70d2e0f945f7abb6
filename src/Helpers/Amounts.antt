-- ===== src/Helpers/Amounts.antt =====
-- pkg/helpers/amount.go: amounts in smallest units as decimal text. A text is the list of its
-- characters; `big.Int` is a natural number.
pub mod Digits
pub mod RoundTrip
use klingdex.Prelude.{
  ℕ, zero, suc, ◌+◌, ◌-◌, ◌*◌, ◌/◌, ◌%◌, ◌^◌, Bool, true, false, ◌&&◌, not, Option, none, some,
  List, [], ◌∷◌, ◌++◌, ltb, leb, ◌==◌, if◌then◌else◌, length, is_empty, replicate, take, Result, ok,
  err, guard, ◌>>=◌, ◌>>◌,
}

pub data AmountError : Type 0 where
  empty_amount invalid_character invalid_amount amount_overflow : AmountError

-- The digits of `%d`; a call has more fuel than the number has digits.
unfoldable pub to_decimal : ℕ → ℕ → List ℕ
to_decimal zero n = []
to_decimal (suc fuel) n =
    let front = to_decimal fuel (n / 10) in
    if ltb n 10 then (b'0' + n) ∷ [] else front ++ ((b'0' + n % 10) ∷ [])

abbrev pub decimal : ℕ → List ℕ
decimal n = to_decimal (suc n) n

-- `%0*d`
abbrev pub zero_padded : ℕ → List ℕ → List ℕ
zero_padded width digits = replicate (width - length digits) b'0' ++ digits

-- The loop that cuts zeros off the end.
unfoldable pub trim_zeros : List ℕ → List ℕ
trim_zeros [] = []
trim_zeros (c ∷ cs) =
    let rest = trim_zeros cs in if is_empty rest && c == b'0' then [] else c ∷ rest

unfoldable pub format_amount : ℕ → ℕ → List ℕ
unfolding to_decimal trim_zeros
format_amount amount decimals =
    if decimals == 0
    then decimal amount
    else (let whole = amount / 10 ^ decimals in
        let frac = amount % 10 ^ decimals in
        if frac == 0
        then decimal whole
        else decimal whole ++ (b'.' ∷ trim_zeros (zero_padded decimals (decimal frac))))

-- The two parts at the first point; `none` where there is none.
unfoldable pub split_point : List ℕ → Option (List ℕ × List ℕ)
split_point [] = none
split_point (c ∷ cs) =
    let rest = split_point cs in
    if c == b'.'
    then some ([], cs)
    else elim rest [ none ↦ none | some (whole, frac) ↦ some (c ∷ whole, frac) ]

-- `wholeStr` and `fracStr`; where there is nothing before the point, the whole text stands for it.
unfoldable pub amount_parts : List ℕ → List ℕ × List ℕ
unfolding split_point
amount_parts s = elim (split_point s) [
  | none ↦ (s, [])
  | some ([], frac) ↦ (s, frac)
  | some (c ∷ whole, frac) ↦ (c ∷ whole, frac)
]

unfoldable pub all_digits : List ℕ → Bool
all_digits [] = true
all_digits (c ∷ cs) = leb b'0' c && leb c b'9' && all_digits cs

-- Padded with zeros or cut to `decimals` digits.
abbrev pub fit : ℕ → List ℕ → List ℕ
fit decimals frac = take decimals (frac ++ replicate (decimals - length frac) b'0')

-- `SetString(s, 10)` on digits.
unfoldable pub value : ℕ → List ℕ → ℕ
value acc [] = acc
value acc (c ∷ cs) = value (acc * 10 + (c - b'0')) cs

unfoldable pub parse_amount : List ℕ → ℕ → Result AmountError ℕ
unfolding amount_parts all_digits value
parse_amount s decimals = do
  guard (not (is_empty s)) empty_amount
  let parts = amount_parts s
  guard (all_digits parts.0) invalid_character
  guard (all_digits parts.1) invalid_character
  let combined = parts.0 ++ fit decimals parts.1
  guard (not (is_empty combined)) invalid_amount
  guard (ltb (value 0 combined) (2 ^ 64)) amount_overflow
  ok (value 0 combined)

unfoldable pub satoshis_to_btc : ℕ → List ℕ
unfolding format_amount
satoshis_to_btc n = format_amount n 8

unfoldable pub btc_to_satoshis : List ℕ → Result AmountError ℕ
unfolding parse_amount
btc_to_satoshis s = parse_amount s 8

unfoldable pub wei_to_eth : ℕ → List ℕ
unfolding format_amount
wei_to_eth n = format_amount n 18

unfoldable pub eth_to_wei : List ℕ → Result AmountError ℕ
unfolding parse_amount
eth_to_wei s = parse_amount s 18
