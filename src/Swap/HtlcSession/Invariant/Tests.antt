-- ===== src/Swap/HtlcSession/Invariant/Tests.antt =====
-- A session between two parties, over the constant hash.
use klingdex.Prelude.{ℕ, true, false, refl, inl, none, some, List, [], ◌∷◌, All}
use klingdex.Swap.HtlcSession.{HtlcSession}
use klingdex.Prelude.{replicate, List, length-replicate}
use klingdex.Chain.{mainnet}
use klingdex.Swap.Txscript.Plain.{plain_txscript}
use klingdex.Swap.Crypto.Constant.{constant_crypto}
use klingdex.Swap.HtlcSession.Invariant.{
  Call, remote_key, address, generate, receive_hash, reveal, run, IsSound, IsConsistent,
  run-IsConsistent,
}

abbrev secret : List ℕ
secret = replicate 32 9

abbrev new_one : HtlcSession constant_crypto plain_txscript
new_one = record {
  symbol = "BTC";
  network = mainnet;
  local_priv_key = some true;
  local_pub_key = true;
  remote_pub_key = none;
  secret = [];
  secret_hash = [];
  htlc_data = none;
  is_initiator = false;
}

abbrev calls : List (Call constant_crypto plain_txscript)
calls =
    generate (some secret)
    ∷ remote_key (some false)
    ∷ address 144
    ∷ receive_hash []
    ∷ reveal secret
    ∷ []

abbrev calls_sound : All (IsSound constant_crypto plain_txscript) calls
calls_sound = (length-replicate {A = ℕ} 32 9, (tt, (tt, (tt, (tt, tt)))))

run-IsConsistent_example :
    IsConsistent constant_crypto plain_txscript (run constant_crypto plain_txscript new_one calls)
run-IsConsistent_example =
    run-IsConsistent constant_crypto plain_txscript new_one calls calls_sound (inl refl)
