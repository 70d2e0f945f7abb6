-- ===== src/Storage/Secrets/WriteOnce/Tests.antt =====
-- A secret of ours, and one that is not known yet.
use klingdex.Prelude.{String, ◌≡◌, refl, Option, some, none, List, [], ◌∷◌}
use klingdex.Storage.Secrets.{Secret, us, get_secret}
use klingdex.Storage.Secrets.WriteOnce.{reveal, reveal_hash, change_all, change_all-kept}

abbrev secret_row : String → Option String → Secret
secret_row i s = record {
  id = i;
  trade_id = "t";
  secret_hash = i;
  secret = s;
  created_by = us;
  remote_offer_wallet_addr = "";
  remote_request_wallet_addr = "";
  created_at = 1;
  revealed_at = none;
}

abbrev rows : List Secret
rows = secret_row "a" (some "01") ∷ secret_row "b" none ∷ []

change_all-kept_example :
    get_secret "a" (change_all (reveal 5 "a" "ff" ∷ reveal_hash 6 "a" "ee" ∷ []) rows)
    ≡ some (secret_row "a" (some "01"))
unfolding get_secret
change_all-kept_example =
    change_all-kept (reveal 5 "a" "ff" ∷ reveal_hash 6 "a" "ee" ∷ []) "a" rows
      {s = secret_row "a" (some "01")} refl refl
