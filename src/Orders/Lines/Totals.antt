-- ===== src/Orders/Lines/Totals.antt =====
-- What the loop over the lines has done when it goes through: the rows, the stock taken and the sums.
use mathlib.Core.List.{append_assoc, append-nil}
use punto_de_venta_local_con.Base.{
  ℕ, ◌+◌, ◌*◌, ◌≤◌, ◌≡◌, refl, sym, subst, true, Option, List, [], ◌∷◌, ◌++◌, ◌==◌, ◌&&◌, arith,
}
use punto_de_venta_local_con.Base.Lists.{find, All, All-append, sum_of, sum_of-append}
use punto_de_venta_local_con.Base.Outcome.{
  ok, not_found, product_missing, >>=-eq-ok, >>-eq-ok, or_throw, or_throw-eq-ok, ok-injective,
}
use punto_de_venta_local_con.Schema.{Database, OrderItem, Product, ProductVariant}
use punto_de_venta_local_con.Stock.Batches.{take_all, take_all_nil, take_all_seq}
use punto_de_venta_local_con.Orders.Pricing.{within_limit, assert_discount_within_limit}
use punto_de_venta_local_con.Orders.Pricing.Bounds.{line_amounts_balance, assert-within_limit}
use punto_de_venta_local_con.Orders.Lines.{
  ItemDto, Cart, resolve_variant, fulfil, resolve_item, resolve_items, sell_line, order_item,
  add_line, unit_price_of, amounts_of, Fulfilment,
}
use punto_de_venta_local_con.Orders.Lines.Moves.{
  order_moves, order_moves-append, HasUniqueIds, tracks, tracks_found, fulfil-item_moves,
}

-- The amounts of one row: the discount is within the limit, and discount and total make the gross.
pub record IsPriced (limit : Option ℕ) (item : OrderItem) : Type 0 where
  pub gross : item.subtotal ≡ item.unit_price * item.quantity
  pub balance : item.discount_amount + item.total ≡ item.subtotal
  pub allowed : within_limit limit item.discount_amount item.subtotal ≡ true

-- From one state of the loop to a later one.
pub record Advances (db : Database) (store : ℕ) (limit : Option ℕ) (cart cart' : Cart)
    : Type 0 where
  pub items : List OrderItem
  pub appended : cart'.resolved_items ≡ cart.resolved_items ++ items
  pub taken : take_all (order_moves db store items) cart.stock_levels ≡ ok cart'.stock_levels
  pub priced : All (IsPriced limit) items
  pub subtotals : cart'.subtotal ≡ cart.subtotal + sum_of (λ i. i.subtotal) items
  pub discounts :
      cart'.discount_amount ≡ cart.discount_amount + sum_of (λ i. i.discount_amount) items
  pub totals : cart'.total ≡ cart.total + sum_of (λ i. i.total) items
  pub taxes : cart'.tax_amount + cart.total ≤ cart.tax_amount + cart'.total

module _ (db : Database) (store : ℕ) (limit : Option ℕ) where
  Advances-refl : (cart : Cart) → Advances db store limit cart cart
  unfolding order_moves
  Advances-refl cart = record {
    items = [];
    appended = sym (append-nil cart.resolved_items);
    taken = take_all_nil cart.stock_levels;
    priced = tt;
    subtotals = omega arith;
    discounts = omega arith;
    totals = omega arith;
    taxes = omega arith;
  }

  Advances-trans :
      (a b c : Cart)
      → Advances db store limit a b
      → Advances db store limit b c
      → Advances db store limit a c
  Advances-trans a b c p q = record {
    items = p.items ++ q.items;
    appended = rw (q.appended, p.appended) (append_assoc a.resolved_items p.items q.items);
    taken =
        rw (order_moves-append db store p.items q.items)
          (take_all_seq _ _ a.stock_levels p.taken q.taken);
    priced = All-append (IsPriced limit) p.items q.items p.priced q.priced;
    subtotals = omega (
      arith,
      p.subtotals,
      q.subtotals,
      sum_of-append (λ (i : OrderItem). i.subtotal) p.items q.items,
    );
    discounts = omega (
      arith,
      p.discounts,
      q.discounts,
      sum_of-append (λ (i : OrderItem). i.discount_amount) p.items q.items,
    );
    totals =
        omega
          (arith, p.totals, q.totals, sum_of-append (λ (i : OrderItem). i.total) p.items q.items);
    taxes = omega (arith, p.taxes, q.taxes);
  }

  add_line-Advances :
      (dto : ItemDto) (product : Product) (variant : Option ProductVariant) (cart : Cart)
      (f : Fulfilment)
      → tracks db product.id ≡ product.track_stock
      → let line = amounts_of product variant dto in
        within_limit limit line.discount line.gross ≡ true
        → fulfil db store product dto cart.stock_levels ≡ ok f
        → Advances db store limit cart
            (add_line cart line (order_item product variant dto line f.components) f)
  unfolding add_line order_item order_moves
  add_line-Advances dto product variant cart f t allowed taken =
      let line = amounts_of product variant dto in
      let item = order_item product variant dto line f.components in
      let (gross, balance, tax) =
        line_amounts_balance (unit_price_of product variant) dto.quantity dto.discount_amount
          product.vat_condition in
      record {
        items = item ∷ [];
        appended = refl;
        taken = rw append-nil (
            fulfil-item_moves db store product dto cart.stock_levels item {f = f} t taken refl refl
              refl refl refl);
        priced = (record { gross = gross; balance = balance; allowed = allowed }, tt);
        subtotals = omega arith;
        discounts = omega arith;
        totals = omega arith;
        taxes = omega arith;
      }

  sell_line-Advances :
      (dto : ItemDto) (product : Product) (variant : Option ProductVariant) (cart : Cart)
      {cart' : Cart}
      → tracks db product.id ≡ product.track_stock
      → sell_line db store limit dto product variant cart ≡ ok cart'
      → Advances db store limit cart cart'
  unfolding sell_line
  sell_line-Advances dto product variant cart {cart'} t e =
      let line = amounts_of product variant dto in
      let (allowed, e₁) =
        >>-eq-ok (assert_discount_within_limit limit line.discount line.gross) _ e in
      let (f, taken, e₂) = >>=-eq-ok (fulfil db store product dto cart.stock_levels) _ e₁ in
      subst (Advances db store limit cart) (ok-injective e₂) (
        add_line-Advances dto product variant cart f t
          (assert-within_limit limit line.discount line.gross allowed) taken)

  resolve_item-Advances :
      (dto : ItemDto) (cart : Cart) {cart' : Cart}
      → HasUniqueIds db
      → resolve_item db store limit dto cart ≡ ok cart'
      → Advances db store limit cart cart'
  unfolding resolve_item
  resolve_item-Advances dto cart {cart'} u e =
      let (product, found, e₁) =
        >>=-eq-ok
          (or_throw (find (λ p. p.id == dto.product_id && p.is_active) db.products)
            (not_found product_missing))
          _ e in
      let (variant, _, e₂) = >>=-eq-ok (resolve_variant db product dto) _ e₁ in
      sell_line-Advances dto product variant cart {cart' = cart'}
        (tracks_found db dto.product_id u (or_throw-eq-ok _ _ found)) e₂

  pub resolve_items-Advances :
      (dtos : List ItemDto) (cart : Cart) {cart' : Cart}
      → HasUniqueIds db
      → resolve_items db store limit dtos cart ≡ ok cart'
      → Advances db store limit cart cart'
  unfolding resolve_items
  resolve_items-Advances [] cart u e = rw (← ok-injective e) (Advances-refl cart)
  resolve_items-Advances (dto ∷ dtos) cart {cart'} u e =
      let (next, one, rest) = >>=-eq-ok (resolve_item db store limit dto cart) _ e in
      Advances-trans cart next cart' (resolve_item-Advances dto cart {cart' = next} u one)
        (resolve_items-Advances dtos next {cart' = cart'} u rest)
