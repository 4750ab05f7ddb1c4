-- ===== src/Quotes/Offered.antt =====
-- What a new quote does to the database, and the sale that follows it.
use punto_de_venta_local_con.Base.{ℕ, ◌≡◌, refl, sym, ap, ◌∙◌, subst, false, List, ◌∷◌, ◌++◌, ◌==◌}
use punto_de_venta_local_con.Base.Lists.{find, any}
use punto_de_venta_local_con.Base.Outcome.{
  ok, not_found, store_missing, unique_violation, throw_if, or_throw, throw_if-eq-ok, >>=-eq-ok,
  >>-eq-ok, ok-injective,
}
use punto_de_venta_local_con.Schema.{Database, Quote, Order, AuthUser, stored_money}
use punto_de_venta_local_con.Discounts.{find_limit_for}
use punto_de_venta_local_con.Orders.Lines.{start}
use punto_de_venta_local_con.Orders.Create.{CreateOrderDto, Created, attempt_create}
use punto_de_venta_local_con.Orders.Create.Checks.{attempt_create-Passes}
use punto_de_venta_local_con.Orders.Create.Effect.{write_order-Writes}
use punto_de_venta_local_con.Quotes.{
  CreateQuoteDto, Draft, empty_draft, QuoteCreated, has_quote_number, quote_lines, new_quote,
  insert_quote, check_customer, attempt_create_quote,
}
use punto_de_venta_local_con.Quotes.Priced.{SameAmounts, same_lines}

-- The steps of a quote that was made.
record IsQuoted (rivals : List Quote) (now : ℕ) (actor : AuthUser) (dto : CreateQuoteDto)
    (db : Database) (created : QuoteCreated) : Type 0 where
  draft : Draft
  lines : quote_lines db dto.items empty_draft ≡ ok draft
  quote : created.quote ≡ new_quote now db actor dto draft
  fresh :
      any (has_quote_number created.quote.store_id created.quote.quote_number) (rivals ++ db.quotes)
      ≡ false
  database :
      (created.database.quotes ≡ created.quote ∷ rivals ++ db.quotes)
      × (created.database.orders ≡ db.orders)
      × (created.database.stock_levels ≡ db.stock_levels)
      × (created.database.cash_movements ≡ db.cash_movements)
      × (created.database.customers ≡ db.customers)

attempt_create_quote-IsQuoted :
    (rivals : List Quote) (now : ℕ) (actor : AuthUser) (dto : CreateQuoteDto) (db : Database)
    {created : QuoteCreated}
    → attempt_create_quote rivals now actor dto db ≡ ok created
    → IsQuoted rivals now actor dto db created
unfolding attempt_create_quote insert_quote
attempt_create_quote-IsQuoted rivals now actor dto db h =
    let (_, _, h₁) =
      >>=-eq-ok (or_throw (find (λ s. s.id == dto.store_id) db.stores) (not_found store_missing)) _
        h in
    let (_, h₂) = >>-eq-ok (check_customer db dto.customer_id) _ h₁ in
    let (draft, lines, h₃) = >>=-eq-ok (quote_lines db dto.items empty_draft) _ h₂ in
    let quote = new_quote now db actor dto draft in
    let (after, inserted, h₄) = >>=-eq-ok (insert_quote rivals quote actor db) _ h₃ in
    let (free, done) =
      >>-eq-ok
        (throw_if (any (has_quote_number quote.store_id quote.quote_number) (rivals ++ db.quotes))
          unique_violation)
        _ inserted in
    subst (IsQuoted rivals now actor dto db) (ok-injective h₄) (record {
      draft = draft;
      lines = lines;
      quote = refl;
      fresh = throw_if-eq-ok _ unique_violation free;
      database =
          subst
            (λ (d : Database).
              (d.quotes ≡ quote ∷ rivals ++ db.quotes)
              × (d.orders ≡ db.orders)
              × (d.stock_levels ≡ db.stock_levels)
              × (d.cash_movements ≡ db.cash_movements)
              × (d.customers ≡ db.customers))
            (ok-injective done) (refl, refl, refl, refl, refl);
    })

-- A sale of the items of a quote, at the prices, rates and variants that the quote was made from, comes
-- to the amounts of the quote: gross, discount, tax and total.
pub quote-sale_amounts :
    (rivals : List Quote) (now : ℕ) (actor : AuthUser) (dto : CreateQuoteDto) (db : Database)
    {quoted : QuoteCreated} (others : List Order) (seller : AuthUser) (sale : CreateOrderDto)
    (later : Database) {created : Created}
    → attempt_create_quote rivals now actor dto db ≡ ok quoted
    → attempt_create others seller sale later ≡ ok created
    → sale.items ≡ dto.items
    → later.products ≡ db.products
    → later.variants ≡ db.variants
    → (created.order.subtotal ≡ quoted.quote.subtotal)
      × (created.order.discount_amount ≡ quoted.quote.discount_amount)
      × (created.order.tax_amount ≡ quoted.quote.tax_amount)
      × (created.order.total ≡ quoted.quote.total)
quote-sale_amounts rivals now actor dto db {quoted} others seller sale later {created} h k same
      products variants =
    let made = attempt_create_quote-IsQuoted rivals now actor dto db h in
    let passes = attempt_create-Passes others seller sale later k in
    let writes = write_order-Writes others seller sale passes.cart later passes.written in
    let limit = find_limit_for later.discount_policies seller.role in
    let amounts : SameAmounts made.draft passes.cart =
      same_lines db later sale.store_id limit products variants sale.items empty_draft
        (start later.stock_levels)
        (ap (λ items. quote_lines db items empty_draft) same ∙ made.lines) passes.resolved
        (refl, refl, refl, refl) in
    let (a, b, c, d) = amounts in
    (
      ap (λ (o : Order). o.subtotal) writes.order
          ∙ ap stored_money (sym a)
          ∙ sym (ap (λ (q : Quote). q.subtotal) made.quote),
      ap (λ (o : Order). o.discount_amount) writes.order
          ∙ ap stored_money (sym b)
          ∙ sym (ap (λ (q : Quote). q.discount_amount) made.quote),
      ap (λ (o : Order). o.tax_amount) writes.order
          ∙ ap stored_money (sym c)
          ∙ sym (ap (λ (q : Quote). q.tax_amount) made.quote),
      ap (λ (o : Order). o.total) writes.order
          ∙ ap stored_money (sym d)
          ∙ sym (ap (λ (q : Quote). q.total) made.quote),
    )
