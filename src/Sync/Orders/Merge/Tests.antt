-- ===== src/Sync/Orders/Merge/Tests.antt =====
-- An order of this node, and one of another node with the same id.
use klingdex.Prelude.{
  if◌then◌else◌, ℕ, Bool, ◌≡◌, ◌⊎◌, ◌<◌, refl, some, none, [], ◌∷◌, arith, true, false,
}
use klingdex.Storage.Orders.{Order, OrderStatus, open_order, cancelled, get_order}
use klingdex.Sync.Orders.{sync_order, sync_orders, no_validator}
use klingdex.Sync.Orders.Merge.{Says, sync_orders-Says, sync_order-Overwrites}

abbrev order : Bool → OrderStatus → ℕ → Order
order own s at = record {
  id = "o";
  peer_id = if own then "us" else "them";
  status = s;
  is_local = own;
  offer_chain = "BTC";
  offer_amount = 1;
  request_chain = "LTC";
  request_amount = 2;
  preferred_methods = [];
  created_at = at;
  expires_at = none;
  updated_at = none;
  signature = "";
}

sync_orders-Says_example :
    (m' : Order) × (get_order "o"
        (sync_orders no_validator (order false cancelled 9 ∷ []) (order true open_order 3 ∷ [])).0
      ≡ some m')
    × ((m' ≡ order true open_order 3)
        ⊎ Says no_validator (order true open_order 3) m' (order false cancelled 9 ∷ []))
unfolding get_order
sync_orders-Says_example =
    sync_orders-Says no_validator (order false cancelled 9 ∷ []) "o" (order true open_order 3 ∷ [])
      {m = order true open_order 3} refl

sync_order-Overwrites_example :
    (m' : Order) × (get_order "o"
        (sync_order no_validator (order false cancelled 9) (order true open_order 3 ∷ [])).0
      ≡ some m')
    × (m'.status ≡ cancelled)
    × (m'.is_local ≡ true)
    × (m'.created_at < 9)
unfolding get_order
sync_order-Overwrites_example =
    sync_order-Overwrites (order false cancelled 9) (order true open_order 3 ∷ [])
      {m = order true open_order 3} refl refl (omega arith) (omega arith) (omega arith)
