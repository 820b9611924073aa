-- ===== src/Product/Handler/Over.antt =====
-- The HTTP handlers over the repository with the cache, or over the one without.
use flash_deals.Base.{Bool, true, false, ◌≡◌, Option}
use flash_deals.Product.State.{ProductWorld}
use flash_deals.Product.Repository.Cached.{cached_repository}
use flash_deals.Product.Repository.Cached.Coherence.{uncached}
use flash_deals.Product.Repository.Cached.Pages.{HasFreshPages}
use flash_deals.Product.Repository.{ProductRepository, db_repository}
use flash_deals.Product.Hotdeal.{HotdealRepository}
use flash_deals.Product.Handler.{ProductHandler}

abbrev pub repository_over : Bool → ProductRepository
repository_over true = cached_repository
repository_over false = db_repository

abbrev pub handler_over : Bool → Option HotdealRepository → ProductHandler
handler_over cached hot = record { repo = repository_over cached; hotdeal_repo = hot }

-- Where there is a cache, its pages are those of the table.
abbrev pub PagesAreRight : Bool → ProductWorld → Type 0
PagesAreRight true w = HasFreshPages w
PagesAreRight false w = Unit {0}

-- Nothing has changed, but in the cache where there is one.
abbrev pub IsUnchanged : Bool → ProductWorld → ProductWorld → Type 0
IsUnchanged true w w' = uncached w' ≡ uncached w
IsUnchanged false w w' = w' ≡ w
