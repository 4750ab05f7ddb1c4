-- ===== src/Orders/Lines.antt =====
-- The loop of `OrdersService.attemptCreate` over the items of the request: each line is priced from the
-- catalogue, its discount checked, and its stock taken.
pub mod Moves
pub mod Totals
use Prim.Native.String.{◌++◌ as append_text}
use punto_de_venta_local_con.Base.{
  ℕ, ◌+◌, ◌*◌, Bool, true, false, Option, none, some, List, [], ◌∷◌, ◌++◌, String, ◌==◌, ◌&&◌,
  if◌then◌else◌, is_some, or_else, ⊤,
}
use punto_de_venta_local_con.Base.Lists.{find, filter}
use punto_de_venta_local_con.Base.Outcome.{
  Result, ok, err, not_found, bad_request, product_missing, variant_missing, empty_bundle, ◌>>=◌,
  ◌>>◌, throw_if, or_throw,
}
use punto_de_venta_local_con.Schema.{
  Database, Product, ProductVariant, BundleItem, StockLevel, OrderItem, OrderItemBundleComponent,
  is_bundle,
}
use punto_de_venta_local_con.Stock.{StockTarget, decrement_stock_guarded}
use punto_de_venta_local_con.Orders.Pricing.{
  LineAmounts, vat_rate, line_amounts, assert_discount_within_limit,
}

-- `CreateOrderItemDto`: the quantity in thousandths, the discount in hundred-thousandths of a peso.
pub record ItemDto : Type 0 where
  pub product_id : ℕ
  pub variant_id : Option ℕ
  pub quantity : ℕ
  pub discount_amount : Option ℕ

-- `StockSyncEntry`: what the online shops are told to fetch again.
pub record StockSyncEntry : Type 0 where
  pub product_id : Option ℕ
  pub variant_id : Option ℕ

-- The variables that the loop carries.
pub record Cart : Type 0 where
  pub subtotal : ℕ
  pub discount_amount : ℕ
  pub tax_amount : ℕ
  pub total : ℕ
  pub resolved_items : List OrderItem
  pub woo_sync_entries : List StockSyncEntry
  pub stock_levels : List StockLevel

abbrev pub start : List StockLevel → Cart
start levels = record {
  subtotal = 0;
  discount_amount = 0;
  tax_amount = 0;
  total = 0;
  resolved_items = [];
  woo_sync_entries = [];
  stock_levels = levels;
}

-- `variantId ? null : productId`
abbrev pub sync_entry : ℕ → Option ℕ → StockSyncEntry
sync_entry product variant = record {
  product_id = if is_some variant then none else some product;
  variant_id = variant;
}

abbrev pub stock_target : ℕ → ℕ → Option ℕ → StockTarget
stock_target store product variant = record {
  store_id = store;
  product_id = some product;
  variant_id = variant;
}

-- `Object.values(attrs).join(' / ')`
unfoldable pub join_attributes : List String → String
join_attributes [] = ""
join_attributes (a ∷ []) = a
join_attributes (a ∷ b ∷ rest) = append_text a (append_text " / " (join_attributes (b ∷ rest)))

-- A bundle's component with the product and variant that the query includes.
pub record Component : Type 0 where
  pub item : BundleItem
  pub product : Product
  pub variant : Option ProductVariant

abbrev pub component_name : Component → String
component_name c = elim c.variant [
  | none ↦ c.product.name
  | some v ↦
      append_text c.product.name (append_text " (" (append_text (join_attributes v.attributes) ")"))
]

abbrev pub find_variant : Option ℕ → List ProductVariant → Option ProductVariant
find_variant none variants = none
find_variant (some id) variants = find (λ v. v.id == id) variants

-- The rows of the bundle joined with their component products, which a foreign key requires.
unfoldable pub components_of : Database → List BundleItem → List Component
components_of db [] = []
components_of db (bi ∷ items) =
    let rest = components_of db items in
    elim (find (λ p. p.id == bi.component_product_id) db.products) [
      | none ↦ rest
      | some p ↦
          record {
            item = bi;
            product = p;
            variant = find_variant bi.component_variant_id db.variants;
          }
          ∷ rest
    ]

-- `bundleItem.findMany({ where: { bundleProductId } })`
unfoldable pub bundle_components : Database → ℕ → List Component
unfolding components_of
bundle_components db product =
    components_of db (filter (λ bi. bi.bundle_product_id == product) db.bundle_items)

-- What one line adds to the sync entries and the bundle's components, with the stock after it.
pub record Fulfilment : Type 0 where
  pub components : List OrderItemBundleComponent
  pub sync : List StockSyncEntry
  pub levels : List StockLevel

-- The guarded decrement of a tracked product, and its sync entry; an untracked one takes nothing.
unfoldable pub take_tracked : ℕ → Bool → ℕ → Option ℕ → ℕ → List StockLevel → Result Fulfilment
take_tracked store false product variant quantity levels =
    ok (record { components = []; sync = []; levels = levels })
take_tracked store true product variant quantity levels = do
  levels' ← decrement_stock_guarded (stock_target store product variant) quantity levels
  ok (record { components = []; sync = sync_entry product variant ∷ []; levels = levels' })

-- The loop over a bundle's components, for a quantity of the bundle.
unfoldable pub take_components : ℕ → ℕ → List Component → List StockLevel → Result Fulfilment
unfolding take_tracked
take_components store quantity [] levels =
    ok (record { components = []; sync = []; levels = levels })
take_components store quantity (c ∷ cs) levels = do
  let required = c.item.quantity * quantity
  let product = c.item.component_product_id
  let variant = c.item.component_variant_id
  one ← take_tracked store c.product.track_stock product variant required levels
  rest ← take_components store quantity cs one.levels
  ok (record {
    components =
        record {
          component_product_id = product;
          component_variant_id = variant;
          component_name = component_name c;
          quantity = required;
        }
        ∷ rest.components;
    sync = one.sync ++ rest.sync;
    levels = rest.levels;
  })

-- A bundle with no components is refused.
unfoldable pub take_bundle : ℕ → ℕ → List Component → List StockLevel → Result Fulfilment
unfolding take_components
take_bundle store quantity [] levels = err (bad_request empty_bundle)
take_bundle store quantity (c ∷ cs) levels = take_components store quantity (c ∷ cs) levels

-- The stock of one line: a bundle's components, or the product itself.
unfoldable pub fulfil : Database → ℕ → Product → ItemDto → List StockLevel → Result Fulfilment
unfolding bundle_components take_bundle take_tracked
fulfil db store product dto levels =
    if is_bundle product.product_type
    then take_bundle store dto.quantity (bundle_components db product.id) levels
    else take_tracked store product.track_stock product.id dto.variant_id (dto.quantity * 1000)
        levels

-- `itemDto.variantId ? findFirst(...) : null`, and the exception of an unknown variant.
unfoldable pub resolve_variant : Database → Product → ItemDto → Result (Option ProductVariant)
resolve_variant db product dto = elim dto.variant_id [
  | none ↦ ok none
  | some id ↦ do
    v ←
        or_throw (find (λ v. v.id == id && v.product_id == product.id) db.variants)
          (not_found variant_missing)
    ok (some v)
]

abbrev pub variant_price : Option ProductVariant → Option ℕ
variant_price none = none
variant_price (some v) = v.price

abbrev pub variant_cost : Option ProductVariant → Option ℕ
variant_cost none = none
variant_cost (some v) = v.cost_price

abbrev pub line_sku : Product → Option ProductVariant → String
line_sku product none = product.sku
line_sku product (some v) = v.sku

abbrev pub unit_price_of : Product → Option ProductVariant → ℕ
unit_price_of product variant = or_else (variant_price variant) product.price

abbrev pub amounts_of : Product → Option ProductVariant → ItemDto → LineAmounts
amounts_of product variant dto =
    line_amounts (unit_price_of product variant) dto.quantity dto.discount_amount
      product.vat_condition

-- The row that `resolvedItems.push` adds.
unfoldable pub order_item :
    Product
    → Option ProductVariant
    → ItemDto
    → LineAmounts
    → List OrderItemBundleComponent
    → OrderItem
order_item product variant dto line components = record {
  product_id = product.id;
  variant_id = dto.variant_id;
  product_type = product.product_type;
  product_name = product.name;
  sku = line_sku product variant;
  quantity = dto.quantity;
  unit_price = unit_price_of product variant;
  unit_cost = or_else (variant_cost variant) product.cost_price;
  vat_condition = product.vat_condition;
  tax_rate = vat_rate product.vat_condition;
  discount_amount = line.discount;
  subtotal = line.gross;
  total = line.total;
  bundle_components = components;
}

-- The loop's variables after a line.
unfoldable pub add_line : Cart → LineAmounts → OrderItem → Fulfilment → Cart
add_line cart line item taken = record {
  subtotal = cart.subtotal + line.gross;
  discount_amount = cart.discount_amount + line.discount;
  tax_amount = cart.tax_amount + line.tax;
  total = cart.total + line.total;
  resolved_items = cart.resolved_items ++ item ∷ [];
  woo_sync_entries = cart.woo_sync_entries ++ taken.sync;
  stock_levels = taken.levels;
}

-- The part of a turn after the product and the variant are read.
unfoldable pub sell_line :
    Database → ℕ → Option ℕ → ItemDto → Product → Option ProductVariant → Cart → Result Cart
unfolding fulfil line_amounts assert_discount_within_limit order_item add_line
sell_line db store limit dto product variant cart = do
  let line = amounts_of product variant dto
  assert_discount_within_limit limit line.discount line.gross
  taken ← fulfil db store product dto cart.stock_levels
  ok (add_line cart line (order_item product variant dto line taken.components) taken)

-- One turn of the loop, for a store and the limit of the seller's role.
unfoldable pub resolve_item : Database → ℕ → Option ℕ → ItemDto → Cart → Result Cart
unfolding resolve_variant sell_line
resolve_item db store limit dto cart = do
  product ←
      or_throw (find (λ p. p.id == dto.product_id && p.is_active) db.products)
        (not_found product_missing)
  variant ← resolve_variant db product dto
  sell_line db store limit dto product variant cart

unfoldable pub resolve_items : Database → ℕ → Option ℕ → List ItemDto → Cart → Result Cart
unfolding resolve_item
resolve_items db store limit [] cart = ok cart
resolve_items db store limit (dto ∷ rest) cart =
    resolve_item db store limit dto cart >>= resolve_items db store limit rest
