-- ===== src/Products/Catalogue/Priced.antt =====
-- The prices of the bundles after an edit of the catalogue.
use punto_de_venta_local_con.Base.{ℕ, ◌≡◌, List}
use punto_de_venta_local_con.Base.Outcome.{ok}
use punto_de_venta_local_con.Schema.{Database, BundleItem}
use punto_de_venta_local_con.Orders.Lines.Moves.{HasUniqueIds}
use punto_de_venta_local_con.Products.BundlePricing.{Repriced}
use punto_de_venta_local_con.Products.BundlePricing.Stable.{IsFlat}
use punto_de_venta_local_con.Products.BundlePricing.Recalculated.{IsPriced}
use punto_de_venta_local_con.Products.Catalogue.{
  BundleItemDto, UpdateProductDto, add_bundle_item, remove_bundle_item, update,
}
use punto_de_venta_local_con.Products.Catalogue.Items.{HasUniqueItems}
use punto_de_venta_local_con.Products.Catalogue.Composition.{
  add_bundle_item-KeepsPrices, remove_bundle_item-KeepsPrices,
}
use punto_de_venta_local_con.Products.Catalogue.Written.{update-KeepsPrices}

-- A request on the catalogue that was answered, from one database to the next.
pub data Edit : Database → Database → Type 0 where
  added :
      {db db' : Database} (bundle : ℕ) (dto : BundleItemDto) (item : BundleItem)
      → add_bundle_item bundle dto db ≡ ok (item, db')
      → Edit db db'
  removed : {db db' : Database} (id : ℕ) → remove_bundle_item id db ≡ ok db' → Edit db db'
  updated :
      {db db' : Database} (id : ℕ) (dto : UpdateProductDto) (listed : List Repriced)
      → update id dto db ≡ ok (listed, db')
      → Edit db db'

-- In a catalogue with unique ids where no component of a bundle is a bundle, a component added or
-- removed and a product edited, if they are answered, leave no bundle with a bundle for a component,
-- and every bundle that had the price of its components, if it follows them, has it after the edit.
pub Edit-IsPriced :
    (db db' : Database)
    → HasUniqueIds db
    → HasUniqueItems db
    → IsFlat db
    → Edit db db'
    → IsFlat db' × ((x : ℕ) → IsPriced x db → IsPriced x db')
Edit-IsPriced db db' unique items flat (added bundle dto item e) =
    add_bundle_item-KeepsPrices bundle dto db unique flat e
Edit-IsPriced db db' unique items flat (removed id e) =
    remove_bundle_item-KeepsPrices id db items flat e
Edit-IsPriced db db' unique items flat (updated id dto listed e) =
    update-KeepsPrices id dto db flat e
