-- ===== src/Helpers/Amounts/RoundTrip/Tests.antt =====
-- An amount with eight decimals.
use klingdex.Prelude.{◌≡◌, arith, ok}
use klingdex.Helpers.Amounts.{format_amount, parse_amount}
use klingdex.Helpers.Amounts.RoundTrip.{parse-format_amount}

parse-format_amount_example : parse_amount (format_amount 150003000 8) 8 ≡ ok 150003000
parse-format_amount_example = parse-format_amount 150003000 8 (omega arith)
