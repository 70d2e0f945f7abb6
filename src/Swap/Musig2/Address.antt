-- ===== src/Swap/Musig2/Address.antt =====
-- internal/swap/musig2.go: the Taproot addresses of a session, and its calls on bytes. A session
-- is made for a chain that the registry has, so `Address` and `AddressWithRefund` find its
-- parameters; a nil pointer of the source shows here as the error `unsupported_chain`.
use klingdex.Prelude.{ℕ, String, some, List, [], length, Result, ok, ◌>>=◌, ◌>>◌, guard, ◌==◌}
use klingdex.Chain
use klingdex.Chain.{Params}
use klingdex.Swap.HtlcScript.{of_option}
use klingdex.Swap.HtlcSession.{map_err}
use klingdex.Swap.Crypto.{Crypto}
use klingdex.Swap.Txscript.{Txscript}
use klingdex.Swap.Taproot.{build_taproot_script_tree, taproot_address, encode_taproot_address}
use klingdex.Swap.Musig2Lib.{Musig2Lib}
use klingdex.Swap.Musig2.{
  Musig2Error, unsupported_chain, taproot_not_supported, key_aggregation_failed, tree_failed,
  combine_failed, bad_length, session_not_ready, nonce_not_set, Musig2Session, set_remote_nonce,
  sign_message,
}

module _ {c : Crypto} (l : Musig2Lib c) where
  open c use {PubKey, output_key}
  open l use {Signature, FinalSignature, final_key, combine, pub_nonce}

  unfoldable pub aggregated_pub_key : Musig2Session l → Result Musig2Error PubKey
  aggregated_pub_key s = do a ← of_option key_aggregation_failed s.aggregated_key; ok (final_key a)

  -- Without a script tree, so with an empty root.
  unfoldable pub tweaked_pub_key : Musig2Session l → Result Musig2Error PubKey
  unfolding aggregated_pub_key
  tweaked_pub_key s = do k ← aggregated_pub_key s; ok (output_key k [])

  unfoldable pub local_pub_nonce : Musig2Session l → Result Musig2Error (List ℕ)
  local_pub_nonce s = do n ← of_option nonce_not_set s.local_nonces; ok (pub_nonce n)

  -- `CombineSignatures`: the local signature is an argument that it does not read.
  unfoldable pub combine_signatures :
      Signature → Signature → Musig2Session l → Result Musig2Error FinalSignature
  combine_signatures own remote s = do
    x ← of_option session_not_ready s.session
    of_option combine_failed (combine x remote)

  unfoldable pub set_remote_nonce_bytes :
      List ℕ → Musig2Session l → Result Musig2Error (Musig2Session l)
  set_remote_nonce_bytes n s = do guard (length n == 66) bad_length; ok (set_remote_nonce l n s)

  unfoldable pub sign_sighash :
      List ℕ → Musig2Session l → Result Musig2Error (Signature × Musig2Session l)
  sign_sighash h s = do guard (length h == 32) bad_length; sign_message l h s

  module _ (t : Txscript) where
    -- A symbol's parameters, where Taproot is supported.
    taproot_params : String → Musig2Session l → Result Musig2Error Params
    taproot_params symbol s = do
      p ← of_option unsupported_chain (Chain.get symbol s.network)
      guard p.supports_taproot taproot_not_supported
      ok p

    unfoldable pub taproot_address_of : Musig2Session l → Result Musig2Error String
    taproot_address_of s = do
      k ← tweaked_pub_key s
      p ← of_option unsupported_chain (Chain.get s.symbol s.network)
      map_err tree_failed (encode_taproot_address c k p.bech32_hrp)

    unfoldable pub taproot_address_for_chain : String → Musig2Session l → Result Musig2Error String
    unfolding taproot_params
    taproot_address_for_chain symbol s = do
      k ← tweaked_pub_key s
      p ← taproot_params symbol s
      map_err tree_failed (encode_taproot_address c k p.bech32_hrp)

    -- Each of the next two stores the tree in the session before it makes the address.
    unfoldable pub taproot_address_with_refund :
        PubKey
        → ℕ
        → Musig2Session l
        → Result Musig2Error (Musig2Session l × Result Musig2Error String)
    taproot_address_with_refund refund timeout s = do
      k ← aggregated_pub_key s
      tree ← map_err tree_failed (build_taproot_script_tree c t k refund timeout)
      p ← of_option unsupported_chain (Chain.get s.symbol s.network)
      ok (
        record s { script_tree = some tree },
        map_err tree_failed (taproot_address c tree p.bech32_hrp),
      )

    unfoldable pub taproot_address_with_refund_for_chain :
        String
        → PubKey
        → ℕ
        → Musig2Session l
        → Result Musig2Error (Musig2Session l × Result Musig2Error String)
    unfolding taproot_params
    taproot_address_with_refund_for_chain symbol refund timeout s = do
      k ← aggregated_pub_key s
      p ← taproot_params symbol s
      tree ← map_err tree_failed (build_taproot_script_tree c t k refund timeout)
      ok (
        record s { script_tree = some tree },
        map_err tree_failed (taproot_address c tree p.bech32_hrp),
      )
