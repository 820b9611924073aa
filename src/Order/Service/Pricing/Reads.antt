-- ===== src/Order/Service/Pricing/Reads.antt =====
-- The prices are read without any change of a stock or of the database.
use mathlib.Core.Path.{◌∙◌}
use flash_deals.Base.{
  ℤ, add32, mul32, ◌≡◌, refl, Option, none, some, List, [], ◌∷◌, Uuid, UuidText, Result, ok, err,
  Exec, pure, ◌>>=◌, bind_keeps,
}
use flash_deals.Rpc.{ProductService}
use flash_deals.Rpc.Stock.{StockView, Same, StockLaws}
use flash_deals.Order.State.{OrderWorld}
use flash_deals.Order.Client.{ClientError, get_product, get_deal}
use flash_deals.Order.Client.Stock.{
  IsReady, order_view, Kept, Kept-trans, get_product-Kept, get_deal-Kept, get_product-Same,
  get_deal-Same,
}
use flash_deals.Order.Service.{OrderItemRequest, Failure}
use flash_deals.Order.Service.Pricing.{item_data, from_client, price_of, price_items, deal_price}

pub record Reads {R : Type 0} (v : StockView R) (w w' : OrderWorld R) : Type 0 where
  pub same : Same (order_view v) w w'
  pub kept : Kept w w'

module _ {R : Type 0} (v : StockView R) where
  pub Reads-refl : (w : OrderWorld R) → IsReady v w → Reads v w w
  Reads-refl w h = record {
    same = record { valid = h; known = λ j k. k; at = λ j. refl };
    kept = (refl, refl, refl);
  }

  pub Reads-trans : (w1 w2 w3 : OrderWorld R) → Reads v w1 w2 → Reads v w2 w3 → Reads v w1 w3
  Reads-trans w1 w2 w3 a b = record {
    same = record {
      valid = b.same.valid;
      known = λ j k. b.same.known j (a.same.known j k);
      at = λ j. b.same.at j ∙ a.same.at j;
    };
    kept = Kept-trans w1 w2 w3 a.kept b.kept;
  }

module _ {R : Type 0} (ids : UuidText) (svc : ProductService R) (laws : StockLaws ids svc) where
  open laws use {view}

  get_product-Reads :
      (id : Uuid) (w : OrderWorld R) → IsReady view w → Reads view w (get_product ids svc id w).1
  get_product-Reads id w h = record {
    same = get_product-Same ids svc laws id w h;
    kept = get_product-Kept ids svc id w;
  }

  get_deal-Reads :
      (id : Uuid) (w : OrderWorld R) → IsReady view w → Reads view w (get_deal ids svc id w).1
  get_deal-Reads id w h = record {
    same = get_deal-Same ids svc laws id w h;
    kept = get_deal-Kept ids svc id w;
  }

  -- What follows a call of the client, and calls nothing more.
  then_Reads :
      {A B : Type 0} (m : Exec (OrderWorld R) ClientError A) (f : A → Result Failure B)
      (w : OrderWorld R)
      → Reads view w (m w).1
      → Reads view w ((from_client m >>= λ a w'. (f a, w')) w).1
  then_Reads m f w h = go (m w) h
    where
      go :
          (p : Result ClientError _ × OrderWorld R)
          → Reads view w p.1
          → Reads view w ((from_client (λ _. p) >>= λ a w'. (f a, w')) w).1
      go (ok a, w') r = r
      go (err e, w') r = r

  price_of-Reads :
      (item : OrderItemRequest) (w : OrderWorld R)
      → IsReady view w
      → (deal : Option Uuid) → item.deal_id ≡ deal
      → Reads view w (price_of ids svc item w).1
  unfolding price_of
  price_of-Reads item w h none e =
      rw (e, price_of)
        (then_Reads (get_product ids svc item.product_id) (λ prod. ok (prod.price, prod.name)) w
          (get_product-Reads item.product_id w h))
  price_of-Reads item w h (some id) e =
      rw (e, price_of)
        (then_Reads (get_deal ids svc id) (deal_price ids svc item) w (get_deal-Reads id w h))

  pub price_items-Reads :
      (items : List OrderItemRequest) (total : ℤ) (w : OrderWorld R)
      → IsReady view w
      → Reads view w (price_items ids svc items total w).1
  unfolding price_items
  price_items-Reads [] total w h = Reads-refl view w h
  price_items-Reads (item ∷ items) total w h =
      bind_keeps (Reads view w) (price_of ids svc item)
        (λ a. price_items ids svc items (add32 total (mul32 a.0 item.quantity)) >>= λ q.
          pure (item_data item a.0 a.1 ∷ q.0, q.1))
        w (price_of-Reads item w h item.deal_id refl)
        (λ a w' r.
          bind_keeps (Reads view w)
            (price_items ids svc items (add32 total (mul32 a.0 item.quantity)))
            (λ q. pure (item_data item a.0 a.1 ∷ q.0, q.1)) w'
            (Reads-trans view w w' _ r
              (price_items-Reads items (add32 total (mul32 a.0 item.quantity)) w' r.same.valid))
            (λ q w'' r'. r'))
