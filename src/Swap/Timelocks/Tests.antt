-- ===== src/Swap/Timelocks/Tests.antt =====
-- The timelocks of Bitcoin and of Litecoin.
use klingdex.Prelude.{◌*◌, ◌≤◌, ◌<◌, ◌≡◌, true, false, ok}
use klingdex.Swap.Timelocks.{
  get_timeout_blocks, validate_timeout_relationship, get_timeout_blocks-Fits,
}

get_timeout_blocks-Fits_example :
    let maker = get_timeout_blocks "LTC" true in
    let taker = get_timeout_blocks "LTC" false in
    (validate_timeout_relationship maker taker ≡ ok tt)
    × (maker ≡ taker * 2)
    × (0 < taker)
    × (maker ≤ 0xffff)
get_timeout_blocks-Fits_example = get_timeout_blocks-Fits "LTC"
