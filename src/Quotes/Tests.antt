-- ===== src/Quotes/Tests.antt =====
-- A quote for the basket of apps/api/src/orders, sold and cancelled.
use punto_de_venta_local_con.Base.{◌≢◌, ◌≡◌, refl, some, none, List, []}
use punto_de_venta_local_con.Base.Outcome.{
  ok, err, bad_request, quote_already_converted, quote_already_cancelled,
}
use punto_de_venta_local_con.Schema.{Database, Quote, QuoteStatus, Order, AuthUser}
use punto_de_venta_local_con.Base.Int.{◌+ℤ◌, ◌-ℤ◌}
use punto_de_venta_local_con.Discounts.{find_limit_for}
use punto_de_venta_local_con.Customers.Account.{apply_account_movement, update_balance, may_move}
use punto_de_venta_local_con.Stock.{is_row_of, has_enough, decrement_stock_guarded}
use punto_de_venta_local_con.Orders.Pricing.{within_limit}
use punto_de_venta_local_con.Orders.Lines.{resolve_items}
use punto_de_venta_local_con.Orders.Create.{
  check_quote, max_order_number, CreateOrderDto, Created, attempt_create,
}
use punto_de_venta_local_con.Orders.Tests.{shop, seller, basket, rival, value_or}
use punto_de_venta_local_con.Quotes.{
  CreateQuoteDto, QuoteCreated, attempt_create_quote, cancel_quote, resolve_quote_state, is_open,
  is_expired,
}
use punto_de_venta_local_con.Quotes.Sold.{find_quote, quote_sold_once, quote_cancelled_once}
use punto_de_venta_local_con.Quotes.Offered.{quote-sale_amounts}

abbrev offer : CreateQuoteDto
offer = record {
  store_id = 1;
  customer_id = some 7;
  valid_days = none;
  items = basket.items;
  notes = none;
}

abbrev no_quote : Quote
no_quote = record {
  id = 0;
  store_id = 0;
  user_id = 0;
  customer_id = none;
  quote_number = 0;
  status = QuoteStatus.opened;
  valid_until = 0;
  subtotal = 0;
  discount_amount = 0;
  tax_amount = 0;
  total = 0;
  notes = none;
  items = [];
  order_id = none;
}

abbrev quoted : QuoteCreated
unfolding attempt_create_quote
quoted =
    value_or (record { quote = no_quote; database = shop })
      (attempt_create_quote [] 0 seller offer shop)

basket-quoted : attempt_create_quote [] 0 seller offer shop ≡ ok quoted
unfolding attempt_create_quote quoted
basket-quoted = refl

abbrev purchase : CreateOrderDto
purchase = record basket { quote_id = some 100 }

abbrev bought : Created
unfolding attempt_create
bought =
    value_or (record { order = rival; sync = []; database = shop })
      (attempt_create [] seller purchase quoted.database)

bought-sold : attempt_create [] seller purchase quoted.database ≡ ok bought
unfolding attempt_create bought quoted resolve_items within_limit find_limit_for
    decrement_stock_guarded is_row_of has_enough ◌-ℤ◌ ◌+ℤ◌ apply_account_movement update_balance
    may_move max_order_number attempt_create_quote check_quote
bought-sold = refl

abbrev dropped : Database
unfolding cancel_quote quoted
dropped = value_or shop (cancel_quote seller 100 quoted.database)

quote-dropped : cancel_quote seller 100 quoted.database ≡ ok dropped
unfolding cancel_quote quoted dropped attempt_create_quote
quote-dropped = refl

valid_at_first : resolve_quote_state quoted.quote 5 ≡ is_open
unfolding resolve_quote_state quoted attempt_create_quote
valid_at_first = refl

expired_in_the_end : resolve_quote_state quoted.quote 1_296_000_001 ≡ is_expired
unfolding resolve_quote_state quoted attempt_create_quote
expired_in_the_end = refl

same_products : quoted.database.products ≡ shop.products
unfolding quoted attempt_create_quote
same_products = refl

same_variants : quoted.database.variants ≡ shop.variants
unfolding quoted attempt_create_quote
same_variants = refl

quote-sale_amounts_example :
    (bought.order.subtotal ≡ quoted.quote.subtotal)
    × (bought.order.discount_amount ≡ quoted.quote.discount_amount)
    × (bought.order.tax_amount ≡ quoted.quote.tax_amount)
    × (bought.order.total ≡ quoted.quote.total)
quote-sale_amounts_example =
    quote-sale_amounts [] 0 seller offer shop {quoted = quoted} [] seller purchase quoted.database
      {created = bought} basket-quoted bought-sold refl same_products same_variants

quote_sold_once_example :
    (q : Quote) × (find_quote 100 quoted.database.quotes ≡ some q)
    × (q.status ≡ QuoteStatus.opened)
    × (find_quote 100 bought.database.quotes
        ≡ some (record q { status = QuoteStatus.converted; order_id = some bought.order.id }))
    × ((after : Database)
        → find_quote 100 after.quotes ≡ find_quote 100 bought.database.quotes
        → ((rivals' : List Order) (actor' : AuthUser) (dto' : CreateOrderDto) (again : Created)
            → dto'.quote_id ≡ some 100
            → attempt_create rivals' actor' dto' after ≢ ok again)
          × ((actor' : AuthUser)
              → cancel_quote actor' 100 after ≡ err (bad_request quote_already_converted)))
quote_sold_once_example =
    quote_sold_once [] seller purchase quoted.database {created = bought} 100 bought-sold refl

quote_cancelled_once_example :
    (q : Quote) × (find_quote 100 quoted.database.quotes ≡ some q)
    × (q.status ≡ QuoteStatus.opened)
    × (find_quote 100 dropped.quotes ≡ some (record q { status = QuoteStatus.cancelled }))
    × ((after : Database)
        → find_quote 100 after.quotes ≡ find_quote 100 dropped.quotes
        → ((rivals' : List Order) (actor' : AuthUser) (dto' : CreateOrderDto) (again : Created)
            → dto'.quote_id ≡ some 100
            → attempt_create rivals' actor' dto' after ≢ ok again)
          × ((actor' : AuthUser)
              → cancel_quote actor' 100 after ≡ err (bad_request quote_already_cancelled)))
quote_cancelled_once_example =
    quote_cancelled_once seller 100 quoted.database {cancelled = dropped} quote-dropped
