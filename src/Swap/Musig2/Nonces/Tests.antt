-- ===== src/Swap/Musig2/Nonces/Tests.antt =====
-- Two sessions over a library of numbers.
use klingdex.Chain.{Network}
use klingdex.Prelude.{true, false, ◌≡◌, refl, none, some, List, [], ◌∷◌}
use klingdex.Helpers.Bytes.{bytes_equal}
use klingdex.Swap.Musig2Lib.Constant.{numbers}
use klingdex.Swap.Musig2.{
  Musig2Session, contains_nonce, mark_used, set_remote_pub_key, generate_nonces, set_remote_nonce,
  init_signing_session, sign_message, sign_guards, mark_previous, new_musig2_session, start_session,
  is_some, local_is_used, sorted_keys, tweak_root,
}
use klingdex.Helpers.Bytes.{compare_bytes}
use klingdex.Chain.{mainnet}
use klingdex.Chain
use klingdex.Swap.Musig2.Trace.{
  Call, remote_key, generate, remote_nonce, start, sign_with, reset, logged, after_sign, step, run,
  IsDistinct,
}
use klingdex.Swap.Musig2.Nonces.{run-IsDistinct, generate-unlocks}

abbrev new_one : Musig2Session numbers
new_one = record {
  symbol = "BTC";
  network = mainnet;
  local_priv_key = true;
  local_pub_key = true;
  remote_pub_key = none;
  aggregated_key = none;
  local_nonces = none;
  remote_nonces = [];
  has_remote_nonce = false;
  used_nonces = [];
  nonce_used = false;
  invalidated = false;
  context = none;
  session = none;
  tweak_applied = false;
  script_tree = none;
}

-- Two signatures, with a reset between them.
abbrev two_signatures : List (Call numbers)
two_signatures =
    remote_key (some false)
    ∷ generate (some 1)
    ∷ remote_nonce []
    ∷ start
    ∷ sign_with []
    ∷ reset (some 2)
    ∷ remote_nonce []
    ∷ start
    ∷ sign_with []
    ∷ []

-- A signature, after which the session is started again with the same nonces.
abbrev started_again : List (Call numbers)
started_again =
    remote_key (some false)
    ∷ generate (some 1)
    ∷ remote_nonce []
    ∷ start
    ∷ sign_with []
    ∷ start
    ∷ []

abbrev left_over : Musig2Session numbers
left_over = record new_one {
  remote_pub_key = some false;
  aggregated_key = some 0;
  local_nonces = some 1;
  has_remote_nonce = true;
  used_nonces = (1 ∷ []) ∷ [];
  nonce_used = true;
  invalidated = true;
  context = some tt;
  session = some 1;
  tweak_applied = true;
}

-- The state in which the calls above leave a new session.
left_over-is_reached : run numbers (new_one, []) started_again ≡ (left_over, (1 ∷ []) ∷ [])
unfolding run step after_sign logged set_remote_pub_key generate_nonces set_remote_nonce
    init_signing_session start_session sign_message sign_guards local_is_used mark_previous
    mark_used contains_nonce bytes_equal compare_bytes sorted_keys tweak_root is_some
left_over-is_reached = refl

run-IsDistinct_example : IsDistinct (run numbers (new_one, []) two_signatures).1
unfolding new_musig2_session Chain.get step set_remote_pub_key
run-IsDistinct_example =
    run-IsDistinct numbers "BTC" mainnet true {s = new_one} two_signatures refl
      (tt, (refl, (tt, (tt, (tt, (tt, (tt, (tt, (tt, tt)))))))))

generate-unlocks_example :
    ¬ IsDistinct
      (run numbers (left_over, ((1 ∷ []) ∷ [])) (generate (some 2) ∷ sign_with [] ∷ [])).1
unfolding generate_nonces contains_nonce mark_used bytes_equal
generate-unlocks_example =
    generate-unlocks numbers left_over ((1 ∷ []) ∷ []) 2 [] 1 1 {g = 7} refl refl refl refl
