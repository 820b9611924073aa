-- ===== src/Tests/Cache.antt =====
-- The product service over the cached repository.
use mathlib.Core.Path.{subst}
use flash_deals.Base.{pos, negsuc, none, some, ok, [], ◌∷◌, ◌≡◌, refl, arith, Bool-cases, inl, inr}
use flash_deals.Product.Queries.Lists
use flash_deals.Product.Repository.Cached.{same_page}
use flash_deals.Product.Repository.Cached.Pages.{HasFreshPages, page_of, same_page→eq}
use flash_deals.Product.State.{ProductWorld, json}
use flash_deals.Product.Queries.{UpdateProductParams}
use flash_deals.Product.Repository
use flash_deals.Product.Repository.Cached
use flash_deals.Product.Repository.Cached.{cached_at}
use flash_deals.Product.Repository.Cached.Coherence.{IsCoherent, Agrees, get_product_by_id-Agrees}
use flash_deals.Product.Repository.Cached.Updates.{Refreshes, update_product-Refreshes}
use flash_deals.Product.Server.{update_stock}
use flash_deals.Product.Server.View.{db_server}
use flash_deals.Product.Server.Cache.NewStock.{cached_server}
use flash_deals.Product.Server.Cache.{update_stock-Agrees}
use flash_deals.Tests.World.{unary_ids, hotdeals, shop, lamp, chair}

-- The lamp is cached, and so is the first page.
abbrev pub warm : ProductWorld
warm = record shop {
  redis = record shop.redis {
    cached_products = (1, json lamp) ∷ [];
    cached_lists = ((pos 20, pos 0), json (lamp ∷ [])) ∷ [];
  };
}

pub warm-IsCoherent : IsCoherent warm
warm-IsCoherent id p e = ground (arith, e)

abbrev cheaper : UpdateProductParams
cheaper = record {
  id = 1;
  name = "lamp";
  description = none;
  price = pos 90;
  category = none;
  image_url = none;
}

get_product_by_id-Agrees_example :
    Agrees (Cached.get_product_by_id 1 warm) (Repository.get_product_by_id 1 warm)
get_product_by_id-Agrees_example = get_product_by_id-Agrees 1 warm refl warm-IsCoherent

-- The first page is cached as the table has it.
abbrev pub fresh : ProductWorld
fresh = record warm {
  redis = record warm.redis { cached_lists = ((pos 20, pos 0), json (lamp ∷ chair ∷ [])) ∷ [] };
}

pub fresh-HasFreshPages : HasFreshPages fresh
unfolding Lists.list_products
fresh-HasFreshPages limit offset ps e =
    elim (Bool-cases (same_page (pos 20, pos 0) (limit, offset))) [
      | inl s ↦
          let (same_limit, same_offset) = same_page→eq (pos 20) (pos 0) limit offset s in
          subst (λ i. page_of i offset fresh ≡ ok ps) same_limit
            (subst (λ i. page_of (pos 20) i fresh ≡ ok ps) same_offset (ground (arith, e, s)))
      | inr s ↦ absurd (ground (arith, e, s))
    ]

pub fresh-IsCoherent : IsCoherent fresh
fresh-IsCoherent = warm-IsCoherent

update_product-Refreshes_example :
    Refreshes (Cached.update_product cheaper fresh) (Repository.update_product cheaper fresh)
update_product-Refreshes_example =
    update_product-Refreshes fresh refl fresh-IsCoherent fresh-HasFreshPages cheaper

update_stock-Agrees_example :
    Agrees
      (update_stock unary_ids (cached_server (some hotdeals)) "u" (negsuc 1) warm)
      (update_stock unary_ids (db_server (some hotdeals)) "u" (negsuc 1) warm)
update_stock-Agrees_example =
    update_stock-Agrees unary_ids (some hotdeals) "u" (negsuc 1) warm refl refl warm-IsCoherent
