-- ===== src/Tests/World.antt =====
-- The data of the tests: two products, one with a hot deal in Redis, and two orders.
use Prim.Native.String.{String, count, ◌++◌ as append}
use Prim.Native.Nat.{zero, suc}
use text.Mathlib.TextLemmas.{length-append}
use flash_deals.Base.{arith, ℕ, ℤ, pos, true, ◌≡◌, refl, ap, none, [], ◌∷◌, Uuid, UuidText, ok}
use flash_deals.Product.State.{ProductProduct, ProductWorld}
use flash_deals.Product.Hotdeal.{HotdealRepository}
use flash_deals.Order.State.{OrdersOrder, OrdersOrderItem, OrderWorld, pending}
use flash_deals.Order.Service.{OrderItemRequest}

-- A UUID in unary.
abbrev pub unary : ℕ → String
unary zero = ""
unary (suc n) = append "u" (unary n)

pub count-unary : (n : ℕ) → count (unary n) ≡ n
count-unary zero = refl
count-unary (suc n) = omega (arith, length-append "u" (unary n), count-unary n)

abbrev pub unary_ids : UuidText
unary_ids = record {
  format = unary;
  parse = λ s. ok (count s);
  parse_format = λ n. ap ok (count-unary n);
}

abbrev pub lamp : ProductProduct
lamp = record {
  id = 1;
  name = "lamp";
  description = none;
  price = pos 100;
  stock = pos 10;
  category = none;
  image_url = none;
  created_at = 0;
  updated_at = 0;
}

abbrev pub chair : ProductProduct
chair = record lamp { id = 2; name = "chair"; price = pos 250; stock = pos 4 }

-- The chair's stock is in Redis, with 3 left.
abbrev pub shop : ProductWorld
shop = record {
  db = record { products = lamp ∷ chair ∷ []; deals = []; next_id = 10; clock = 5 };
  redis = record { stocks = (2, pos 3) ∷ []; cached_products = []; cached_lists = [] };
  script = [];
  waits = [];
}

abbrev pub hotdeals : HotdealRepository
hotdeals = record { connected = true; enabled = true }

abbrev pub old_order : OrdersOrder
old_order = record {
  id = 20;
  user_id = 7;
  total_amount = pos 200;
  status = pending;
  recipient_name = none;
  phone = none;
  address = none;
  address_detail = none;
  postal_code = none;
  cancelled_at = none;
  cancel_reason = none;
  created_at = 1;
  updated_at = 1;
}

abbrev pub old_item : OrdersOrderItem
old_item = record {
  id = 21;
  order_id = 20;
  product_id = 1;
  deal_id = none;
  product_name = "lamp";
  quantity = pos 2;
  unit_price = pos 100;
  subtotal = pos 200;
  created_at = 1;
}

abbrev pub start : OrderWorld ProductWorld
start = record {
  db = record { orders = old_order ∷ []; order_items = old_item ∷ []; next_id = 30; clock = 9 };
  remote = shop;
  connected = true;
  queue = [];
  script = [];
  net = [];
}

abbrev pub request : Uuid → ℤ → OrderItemRequest
request id n = record { product_id = id; deal_id = none; quantity = n }
