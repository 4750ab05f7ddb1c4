-- ===== src/Quotes/Sold.antt =====
-- The states of a quote: open, then converted by one sale or cancelled, and nothing after.
use punto_de_venta_local_con.Base.{
  ◌≢◌, ℕ, ◌≡◌, refl, sym, ap, ◌∙◌, Option, some, List, [], ◌∷◌, ◌==◌, arith,
}
use punto_de_venta_local_con.Base.Lists.{find, update_where}
use punto_de_venta_local_con.Base.Outcome.{
  ok, err, bad_request, not_found, quote_missing, quote_already_converted, quote_already_cancelled,
  or_throw, or_throw-eq-ok, >>=-eq-ok, >>-eq-ok, ok-injective,
}
use punto_de_venta_local_con.Schema.{Database, Quote, QuoteStatus, Order, AuthUser}
use punto_de_venta_local_con.Orders.Create.{
  CreateOrderDto, Created, attempt_create, check_quote, check_quote_status, convert_quote,
}
use punto_de_venta_local_con.Orders.Create.Checks.{attempt_create-Passes}
use punto_de_venta_local_con.Orders.Create.Effect.{write_order-Writes}
use punto_de_venta_local_con.Quotes.{cancel_quote, check_cancellable}

abbrev pub find_quote : ℕ → List Quote → Option Quote
find_quote id = find (λ q. q.id == id)

find_quote-update :
    (id : ℕ) (f : Quote → Quote)
    → ((q : Quote) → (f q).id ≡ q.id)
    → (quotes : List Quote) (q : Quote) → find_quote id quotes ≡ some q
    → find_quote id (update_where (λ q. q.id == id) f quotes) ≡ some (f q)
find_quote-update id f same [] q e = cc
find_quote-update id f same (r ∷ quotes) q e =
    ground (arith, same r, find_quote-update id f same quotes q)

check_quote_found :
    (db : Database) (dto : CreateOrderDto) (id : ℕ) (q : Quote)
    → dto.quote_id ≡ some id
    → find_quote id db.quotes ≡ some q
    → check_quote db dto ≡ check_quote_status q.status
unfolding check_quote
check_quote_found db dto id q e f = rw e (rw (f, find) refl)

-- A sale that goes through has an open quote, if it has one.
sale_of_open :
    (rivals : List Order) (actor : AuthUser) (dto : CreateOrderDto) (db : Database)
    (created : Created) (id : ℕ) (q : Quote)
    → dto.quote_id ≡ some id
    → find_quote id db.quotes ≡ some q
    → attempt_create rivals actor dto db ≡ ok created
    → q.status ≡ QuoteStatus.opened
sale_of_open rivals actor dto db created id q e f h =
    let passes = attempt_create-Passes rivals actor dto db h in
    opened_of q.status (sym (check_quote_found db dto id q e f) ∙ passes.quote)
  where
    opened_of :
        (status : QuoteStatus) → check_quote_status status ≡ ok tt → status ≡ QuoteStatus.opened
    opened_of QuoteStatus.opened k = refl
    opened_of QuoteStatus.converted k = cc
    opened_of QuoteStatus.cancelled k = cc

quote_of_sale :
    (db : Database) (dto : CreateOrderDto) (id : ℕ)
    → dto.quote_id ≡ some id
    → check_quote db dto ≡ ok tt
    → (q : Quote) × (find_quote id db.quotes ≡ some q)
unfolding check_quote
quote_of_sale db dto id e h =
    let (q, k, _) =
      >>=-eq-ok (or_throw (find_quote id db.quotes) (not_found quote_missing)) _ (rw e at h) in
    (q, or_throw-eq-ok (find_quote id db.quotes) _ k)

cancel_quote_refused :
    (actor : AuthUser) (id : ℕ) (db : Database) (q : Quote)
    → find_quote id db.quotes ≡ some q
    → (q.status ≡ QuoteStatus.converted
        → cancel_quote actor id db ≡ err (bad_request quote_already_converted))
      × (q.status ≡ QuoteStatus.cancelled
          → cancel_quote actor id db ≡ err (bad_request quote_already_cancelled))
unfolding cancel_quote
cancel_quote_refused actor id db q f = (
  λ s. rw (f, find) (rw (s, check_cancellable) refl),
  λ s. rw (f, find) (rw (s, check_cancellable) refl),
)

-- Once a sale has gone through for a quote, the quote was open, is converted and names the sale; and on
-- every later database where its row is as the sale has left it, no sale for it goes through, and it
-- cannot be cancelled.
pub quote_sold_once :
    (rivals : List Order) (actor : AuthUser) (dto : CreateOrderDto) (db : Database)
    {created : Created} (id : ℕ)
    → attempt_create rivals actor dto db ≡ ok created
    → dto.quote_id ≡ some id
    → (q : Quote) × (find_quote id db.quotes ≡ some q)
      × (q.status ≡ QuoteStatus.opened)
      × (find_quote id created.database.quotes
          ≡ some (record q { status = QuoteStatus.converted; order_id = some created.order.id }))
      × ((after : Database)
          → find_quote id after.quotes ≡ find_quote id created.database.quotes
          → ((rivals' : List Order) (actor' : AuthUser) (dto' : CreateOrderDto) (again : Created)
              → dto'.quote_id ≡ some id
              → attempt_create rivals' actor' dto' after ≢ ok again)
            × ((actor' : AuthUser)
                → cancel_quote actor' id after ≡ err (bad_request quote_already_converted)))
quote_sold_once rivals actor dto db {created} id h e =
    let passes = attempt_create-Passes rivals actor dto db h in
    let writes = write_order-Writes rivals actor dto passes.cart db passes.written in
    let (q, f) = quote_of_sale db dto id e passes.quote in
    let sold = record q { status = QuoteStatus.converted; order_id = some created.order.id } in
    let row : find_quote id created.database.quotes ≡ some sold =
      ap (find_quote id) (writes.quotes ∙ ap (λ o. convert_quote o created.order.id db.quotes) e)
      ∙ find_quote-update id
          (λ q. record q { status = QuoteStatus.converted; order_id = some created.order.id })
          (λ r. refl) db.quotes q f in
    (
      q,
      f,
      sale_of_open rivals actor dto db created id q e f h,
      row,
      λ after same. (
        λ rivals' actor' dto' again e' h'.
            let impossible =
              sale_of_open rivals' actor' dto' after again id sold e' (same ∙ row) h' in
            cc,
        λ actor'. (cancel_quote_refused actor' id after sold (same ∙ row)).0 refl,
      ),
    )

-- Once a quote has been cancelled, it was open; and while its row stays as the cancellation has left it,
-- no sale for it goes through, and it cannot be cancelled again.
pub quote_cancelled_once :
    (actor : AuthUser) (id : ℕ) (db : Database) {cancelled : Database}
    → cancel_quote actor id db ≡ ok cancelled
    → (q : Quote) × (find_quote id db.quotes ≡ some q)
      × (q.status ≡ QuoteStatus.opened)
      × (find_quote id cancelled.quotes ≡ some (record q { status = QuoteStatus.cancelled }))
      × ((after : Database)
          → find_quote id after.quotes ≡ find_quote id cancelled.quotes
          → ((rivals' : List Order) (actor' : AuthUser) (dto' : CreateOrderDto) (again : Created)
              → dto'.quote_id ≡ some id
              → attempt_create rivals' actor' dto' after ≢ ok again)
            × ((actor' : AuthUser)
                → cancel_quote actor' id after ≡ err (bad_request quote_already_cancelled)))
unfolding cancel_quote
quote_cancelled_once actor id db {cancelled} h =
    let (q, k, h₁) = >>=-eq-ok (or_throw (find_quote id db.quotes) (not_found quote_missing)) _ h in
    let (open_now, h₂) = >>-eq-ok (check_cancellable q.status) _ h₁ in
    let f = or_throw-eq-ok (find_quote id db.quotes) _ k in
    let gone = record q { status = QuoteStatus.cancelled } in
    let row : find_quote id cancelled.quotes ≡ some gone =
      sym (ap (λ (d : Database). find_quote id d.quotes) (ok-injective h₂))
      ∙ find_quote-update id (λ q. record q { status = QuoteStatus.cancelled }) (λ r. refl)
          db.quotes q f in
    (
      q,
      f,
      cancellable q.status open_now,
      row,
      λ after same. (
        λ rivals' actor' dto' again e' h'.
            let impossible =
              sale_of_open rivals' actor' dto' after again id gone e' (same ∙ row) h' in
            cc,
        λ actor'. (cancel_quote_refused actor' id after gone (same ∙ row)).1 refl,
      ),
    )
  where
    cancellable :
        (status : QuoteStatus) → check_cancellable status ≡ ok tt → status ≡ QuoteStatus.opened
    cancellable QuoteStatus.opened k = refl
    cancellable QuoteStatus.converted k = cc
    cancellable QuoteStatus.cancelled k = cc
