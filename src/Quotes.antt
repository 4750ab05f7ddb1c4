-- ===== src/Quotes.antt =====
-- apps/api/src/quotes: offers of goods at the prices of the day, which a sale may convert.
pub mod Sold
pub mod Priced
pub mod Offered
mod Tests
use punto_de_venta_local_con.Base.{
  ℕ, zero, suc, ◌+◌, ◌*◌, max, ltb, Bool, true, false, not, ◌&&◌, Option, none, some, List, [], ◌∷◌,
  ◌++◌, map, String, ◌==◌, if◌then◌else◌, or_else, ⊤,
}
use punto_de_venta_local_con.Base.Lists.{find, any, update_where}
use punto_de_venta_local_con.Base.Outcome.{
  Result, ok, err, Error, not_found, bad_request, unique_violation, store_missing, customer_missing,
  product_missing, quote_missing, quote_already_converted, quote_already_cancelled, ◌>>=◌, ◌>>◌,
  throw_if, or_throw,
}
use punto_de_venta_local_con.Schema.{
  Database, Product, ProductVariant, Quote, QuoteItem, QuoteStatus, AuthUser, AuditAction,
  stored_money,
}
use punto_de_venta_local_con.Billing.Status.{ms_per_day}
use punto_de_venta_local_con.Orders.Pricing.{LineAmounts, vat_rate}
use punto_de_venta_local_con.Orders.Lines.{
  ItemDto, resolve_variant, unit_price_of, line_sku, amounts_of,
}

-- `EffectiveQuoteState`
pub data EffectiveQuoteState : Type 0 where
  is_open is_expired is_converted is_cancelled : EffectiveQuoteState

-- `resolveQuoteState`
unfoldable pub resolve_quote_state : Quote → ℕ → EffectiveQuoteState
resolve_quote_state quote now = elim quote.status [
  | QuoteStatus.opened ↦ if ltb quote.valid_until now then is_expired else is_open
  | QuoteStatus.converted ↦ is_converted
  | QuoteStatus.cancelled ↦ is_cancelled
]

-- `CreateQuoteDto`; its items have the fields of a sale's.
pub record CreateQuoteDto : Type 0 where
  pub store_id : ℕ
  pub customer_id : Option ℕ
  pub valid_days : Option ℕ
  pub items : List ItemDto
  pub notes : Option String

abbrev pub max_quote_number_attempts : ℕ
max_quote_number_attempts = 3

abbrev pub default_valid_days : ℕ
default_valid_days = 15

-- The variables of the loop over the items.
pub record Draft : Type 0 where
  pub subtotal : ℕ
  pub discount_amount : ℕ
  pub tax_amount : ℕ
  pub total : ℕ
  pub items_data : List QuoteItem

abbrev pub empty_draft : Draft
empty_draft = record {
  subtotal = 0;
  discount_amount = 0;
  tax_amount = 0;
  total = 0;
  items_data = [];
}

abbrev pub variant_id_of : Option ProductVariant → Option ℕ
variant_id_of none = none
variant_id_of (some v) = some v.id

-- The row that `itemsData.push` adds.
unfoldable pub quote_item : Product → Option ProductVariant → ItemDto → LineAmounts → QuoteItem
quote_item product variant dto line = record {
  product_id = product.id;
  variant_id = variant_id_of variant;
  product_type = product.product_type;
  product_name = product.name;
  sku = line_sku product variant;
  quantity = dto.quantity;
  unit_price = unit_price_of product variant;
  vat_condition = product.vat_condition;
  tax_rate = vat_rate product.vat_condition;
  discount_amount = line.discount;
  subtotal = line.gross;
  total = line.total;
}

unfoldable pub add_quote_line : Draft → LineAmounts → QuoteItem → Draft
add_quote_line draft line item = record {
  subtotal = draft.subtotal + line.gross;
  discount_amount = draft.discount_amount + line.discount;
  tax_amount = draft.tax_amount + line.tax;
  total = draft.total + line.total;
  items_data = draft.items_data ++ item ∷ [];
}

-- One turn of the loop: no limit of discounts and no stock.
unfoldable pub quote_line : Database → ItemDto → Draft → Result Draft
unfolding resolve_variant quote_item add_quote_line
quote_line db dto draft = do
  product ←
      or_throw (find (λ p. p.id == dto.product_id && p.is_active) db.products)
        (not_found product_missing)
  variant ← resolve_variant db product dto
  let line = amounts_of product variant dto
  ok (add_quote_line draft line (quote_item product variant dto line))

unfoldable pub quote_lines : Database → List ItemDto → Draft → Result Draft
unfolding quote_line
quote_lines db [] draft = ok draft
quote_lines db (dto ∷ rest) draft = quote_line db dto draft >>= quote_lines db rest

-- `getNextQuoteNumber`, less one: the greatest number of the store, or 0.
unfoldable pub max_quote_number : ℕ → List Quote → ℕ
max_quote_number store [] = 0
max_quote_number store (q ∷ quotes) =
    max (if q.store_id == store then q.quote_number else 0) (max_quote_number store quotes)

abbrev pub has_quote_number : ℕ → ℕ → Quote → Bool
has_quote_number store number q = q.store_id == store && q.quote_number == number

abbrev pub check_customer : Database → Option ℕ → Result ⊤
check_customer db none = ok tt
check_customer db (some id) = do
  customer ← or_throw (find (λ c. c.id == id) db.customers) (not_found customer_missing)
  ok tt

-- The row as its columns store it.
abbrev pub stored_quote_item : QuoteItem → QuoteItem
stored_quote_item i = record i {
  discount_amount = stored_money i.discount_amount;
  subtotal = stored_money i.subtotal;
  total = stored_money i.total;
}

abbrev pub new_quote : ℕ → Database → AuthUser → CreateQuoteDto → Draft → Quote
new_quote now db actor dto draft = record {
  id = db.next_id;
  store_id = dto.store_id;
  user_id = actor.user_id;
  customer_id = dto.customer_id;
  quote_number = suc (max_quote_number dto.store_id db.quotes);
  status = QuoteStatus.opened;
  valid_until = now + or_else dto.valid_days default_valid_days * ms_per_day;
  subtotal = stored_money draft.subtotal;
  discount_amount = stored_money draft.discount_amount;
  tax_amount = stored_money draft.tax_amount;
  total = stored_money draft.total;
  notes = dto.notes;
  items = map stored_quote_item draft.items_data;
  order_id = none;
}

abbrev pub audit_quote : AuditAction → ℕ → AuthUser → ℕ → Database → Database
audit_quote action store actor id db = record db {
  audit_logs =
      record { store_id = some store; user_id = actor.user_id; action = action; entity_id = id }
      ∷ db.audit_logs;
}

-- The insert, with the quotes that other transactions have committed since the number was read, which
-- the unique index compares it with; and the audit row.
unfoldable pub insert_quote : List Quote → Quote → AuthUser → Database → Result Database
insert_quote rivals quote actor db = do
  throw_if (any (has_quote_number quote.store_id quote.quote_number) (rivals ++ db.quotes))
      unique_violation
  ok (
      audit_quote AuditAction.quote_create quote.store_id actor quote.id
        (record db { quotes = quote ∷ rivals ++ db.quotes; next_id = suc db.next_id }))

pub record QuoteCreated : Type 0 where
  pub quote : Quote
  pub database : Database

-- `attemptCreate`
unfoldable pub attempt_create_quote :
    List Quote → ℕ → AuthUser → CreateQuoteDto → Database → Result QuoteCreated
unfolding quote_lines insert_quote
attempt_create_quote rivals now actor dto db = do
  store ← or_throw (find (λ s. s.id == dto.store_id) db.stores) (not_found store_missing)
  check_customer db dto.customer_id
  draft ← quote_lines db dto.items empty_draft
  let quote = new_quote now db actor dto draft
  after ← insert_quote rivals quote actor db
  ok (record { quote = quote; database = after })

-- The attempts of `create`: a clash of numbers starts over, any other exception ends the call.
unfoldable pub create_quote_attempts :
    ℕ → (ℕ → List Quote) → ℕ → AuthUser → CreateQuoteDto → Database → Result QuoteCreated × Database
unfolding attempt_create_quote
create_quote_attempts zero rivals now actor dto db = (err unique_violation, db)
create_quote_attempts (suc left) rivals now actor dto db =
    let committed = record db { quotes = rivals left ++ db.quotes } in
    let again = create_quote_attempts left rivals now actor dto committed in
    elim (attempt_create_quote (rivals left) now actor dto db) [
      | ok created ↦ (ok created, created.database)
      | err unique_violation ↦ again
      | err e ↦ (err e, committed)
    ]

-- `create`
unfoldable pub create_quote :
    (ℕ → List Quote) → ℕ → AuthUser → CreateQuoteDto → Database → Result QuoteCreated × Database
unfolding create_quote_attempts
create_quote rivals = create_quote_attempts max_quote_number_attempts rivals

abbrev pub check_cancellable : QuoteStatus → Result ⊤
check_cancellable QuoteStatus.opened = ok tt
check_cancellable QuoteStatus.converted = err (bad_request quote_already_converted)
check_cancellable QuoteStatus.cancelled = err (bad_request quote_already_cancelled)

abbrev pub cancel_row : ℕ → List Quote → List Quote
cancel_row id = update_where (λ q. q.id == id) (λ q. record q { status = QuoteStatus.cancelled })

-- `cancel`
unfoldable pub cancel_quote : AuthUser → ℕ → Database → Result Database
cancel_quote actor id db = do
  quote ← or_throw (find (λ q. q.id == id) db.quotes) (not_found quote_missing)
  check_cancellable quote.status
  ok (
      audit_quote AuditAction.quote_cancel quote.store_id actor quote.id
        (record db { quotes = cancel_row id db.quotes }))
