-- ===== src/Swap/Offer/Tests.antt =====
-- A valid offer of bitcoin for litecoin.
use klingdex.Prelude.{◌≡◌, ◌↔◌, ok}
use klingdex.Swap.Types.{musig2, Offer}
use klingdex.Chain.{testnet}
use klingdex.Swap.Offer.{validate, validate_iff, IsTradable}

abbrev offer : Offer
offer = record {
  offer_chain = "BTC";
  offer_amount = 100000;
  request_chain = "LTC";
  request_amount = 5000000;
  method = musig2;
  expires_at = 0;
}

validate_iff_example : (validate offer testnet ≡ ok tt) ↔ (
    IsTradable offer.offer_chain testnet offer.method offer.offer_amount
    × IsTradable offer.request_chain testnet offer.method offer.request_amount)
validate_iff_example = validate_iff offer testnet
