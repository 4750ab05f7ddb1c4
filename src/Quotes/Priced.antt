-- ===== src/Quotes/Priced.antt =====
-- What a quote promises: its amounts against its rows, and against the sale of the same items.
use punto_de_venta_local_con.Base.{
  ℕ, ◌+◌, ◌≤◌, ◌≡◌, refl, sym, ap, subst, ◌∙◌, Option, some, List, [], ◌∷◌, arith, ◌==◌, ◌&&◌,
}
use punto_de_venta_local_con.Base.Lists.{find, sum_of, sum_of-append}
use punto_de_venta_local_con.Base.Outcome.{
  ok, not_found, product_missing, or_throw, or_throw-eq-ok, >>=-eq-ok, >>-eq-ok, ok-injective,
}
use punto_de_venta_local_con.Schema.{Database, Product, ProductVariant, QuoteItem}
use punto_de_venta_local_con.Orders.Pricing.{assert_discount_within_limit}
use punto_de_venta_local_con.Orders.Pricing.Bounds.{line_amounts_balance}
use punto_de_venta_local_con.Orders.Lines.{
  ItemDto, Cart, resolve_variant, resolve_item, resolve_items, sell_line, fulfil, add_line,
  amounts_of, unit_price_of,
}
use punto_de_venta_local_con.Quotes.{Draft, quote_item, add_quote_line, quote_line, quote_lines}

-- The sums of a quote agree with those of a sale.
abbrev pub SameAmounts : Draft → Cart → Type 0
SameAmounts d c =
    (d.subtotal ≡ c.subtotal)
    × (d.discount_amount ≡ c.discount_amount)
    × (d.tax_amount ≡ c.tax_amount)
    × (d.total ≡ c.total)

-- The steps of a line of a quote.
quote_line-eq_ok :
    (db : Database) (dto : ItemDto) (d : Draft) {d' : Draft}
    → quote_line db dto d ≡ ok d'
    → (product : Product) × (variant : Option ProductVariant) × (find
          (λ p. p.id == dto.product_id && p.is_active)
          db.products
        ≡ some product)
      × (resolve_variant db product dto ≡ ok variant)
      × (d'
          ≡ add_quote_line d
              (amounts_of product variant dto)
              (quote_item product variant dto (amounts_of product variant dto)))
unfolding quote_line
quote_line-eq_ok db dto d h =
    let (product, e₁, k₁) =
      >>=-eq-ok
        (or_throw (find (λ p. p.id == dto.product_id && p.is_active) db.products)
          (not_found product_missing))
        _ h in
    let (variant, e₂, k₂) = >>=-eq-ok (resolve_variant db product dto) _ k₁ in
    (product, variant, or_throw-eq-ok _ _ e₁, e₂, sym (ok-injective k₂))

-- A line of a sale, once its product and variant are found.
resolve_item-found :
    (db : Database) (store : ℕ) (limit : Option ℕ) (dto : ItemDto) (c : Cart) (product : Product)
    (variant : Option ProductVariant)
    → find (λ p. p.id == dto.product_id && p.is_active) db.products ≡ some product
    → resolve_variant db product dto ≡ ok variant
    → resolve_item db store limit dto c ≡ sell_line db store limit dto product variant c
unfolding resolve_item
resolve_item-found db store limit dto c product variant e₁ e₂ =
    rw (e₁, find) (rw (e₂, resolve_variant) refl)

sell_line-amounts :
    (db : Database) (store : ℕ) (limit : Option ℕ) (dto : ItemDto) (product : Product)
    (variant : Option ProductVariant) (c : Cart) {c' : Cart}
    → sell_line db store limit dto product variant c ≡ ok c'
    → (c'.subtotal ≡ c.subtotal + (amounts_of product variant dto).gross)
      × (c'.discount_amount ≡ c.discount_amount + (amounts_of product variant dto).discount)
      × (c'.tax_amount ≡ c.tax_amount + (amounts_of product variant dto).tax)
      × (c'.total ≡ c.total + (amounts_of product variant dto).total)
unfolding sell_line add_line
sell_line-amounts db store limit dto product variant c h =
    let line = amounts_of product variant dto in
    let (_, k₁) = >>-eq-ok (assert_discount_within_limit limit line.discount line.gross) _ h in
    let (taken, _, k₂) = >>=-eq-ok (fulfil db store product dto c.stock_levels) _ k₁ in
    let same = ok-injective k₂ in
    (
      sym (ap (λ (r : Cart). r.subtotal) same),
      sym (ap (λ (r : Cart). r.discount_amount) same),
      sym (ap (λ (r : Cart). r.tax_amount) same),
      sym (ap (λ (r : Cart). r.total) same),
    )

resolve_variant_same :
    (db later : Database) (product : Product) (dto : ItemDto)
    → later.variants ≡ db.variants
    → resolve_variant later product dto ≡ resolve_variant db product dto
unfolding resolve_variant
resolve_variant_same db later product dto e = ground (arith, e)

-- The products and variants that quote and sale read are the same.
module _ (db later : Database) (store : ℕ) (limit : Option ℕ)
    (products : later.products ≡ db.products) (variants : later.variants ≡ db.variants) where
  same_line :
      (dto : ItemDto) (d : Draft) (c : Cart) {d' : Draft} {c' : Cart}
      → quote_line db dto d ≡ ok d'
      → resolve_item later store limit dto c ≡ ok c'
      → SameAmounts d c
      → SameAmounts d' c'
  same_line dto d c {d'} {c'} h k (a₁, a₂, a₃, a₄) =
      let (product, variant, e₁, e₂, e₃) = quote_line-eq_ok db dto d h in
      let found = ap (find (λ p. p.id == dto.product_id && p.is_active)) products ∙ e₁ in
      let chosen = resolve_variant_same db later product dto variants ∙ e₂ in
      let sold =
        sym (resolve_item-found later store limit dto c product variant found chosen) ∙ k in
      let (b₁, b₂, b₃, b₄) = sell_line-amounts later store limit dto product variant c sold in
      let f₁ = ap (λ (r : Draft). r.subtotal) e₃ in
      let f₂ = ap (λ (r : Draft). r.discount_amount) e₃ in
      let f₃ = ap (λ (r : Draft). r.tax_amount) e₃ in
      let f₄ = ap (λ (r : Draft). r.total) e₃ in
      unfold add_quote_line in (cc (f₁, b₁, a₁), cc (f₂, b₂, a₂), cc (f₃, b₃, a₃), cc (f₄, b₄, a₄))

  pub same_lines :
      (items : List ItemDto) (d : Draft) (c : Cart) {d' : Draft} {c' : Cart}
      → quote_lines db items d ≡ ok d'
      → resolve_items later store limit items c ≡ ok c'
      → SameAmounts d c
      → SameAmounts d' c'
  unfolding quote_lines resolve_items
  same_lines [] d c h k (a₁, a₂, a₃, a₄) =
      let e = ok-injective h in let f = ok-injective k in (cc, cc, cc, cc)
  same_lines (dto ∷ rest) d c h k same =
      let (d₁, h₁, h₂) = >>=-eq-ok (quote_line db dto d) _ h in
      let (c₁, k₁, k₂) = >>=-eq-ok (resolve_item later store limit dto c) _ k in
      same_lines rest d₁ c₁ h₂ k₂ (same_line dto d c h₁ k₁ same)

-- The amounts and rows of a draft.
abbrev pub IsSummed : Draft → Type 0
IsSummed d =
    (d.subtotal ≡ sum_of (λ i. i.subtotal) d.items_data)
    × (d.discount_amount ≡ sum_of (λ i. i.discount_amount) d.items_data)
    × (d.total ≡ sum_of (λ i. i.total) d.items_data)
    × (d.discount_amount + d.total ≡ d.subtotal)
    × (d.tax_amount ≤ d.total)

add_quote_line-IsSummed :
    (d : Draft) (product : Product) (variant : Option ProductVariant) (dto : ItemDto)
    → IsSummed d
    → IsSummed (
        add_quote_line d
          (amounts_of product variant dto)
          (quote_item product variant dto (amounts_of product variant dto)))
unfolding add_quote_line quote_item
add_quote_line-IsSummed d product variant dto (a, b, c, e, f) =
    let line = amounts_of product variant dto in
    let item = quote_item product variant dto line in
    let (_, balance, tax) =
      line_amounts_balance (unit_price_of product variant) dto.quantity dto.discount_amount
        product.vat_condition in
    (
      omega (arith, a, sum_of-append (λ (i : QuoteItem). i.subtotal) d.items_data (item ∷ [])),
      omega
          (arith, b, sum_of-append (λ (i : QuoteItem). i.discount_amount) d.items_data (item ∷ [])),
      omega (arith, c, sum_of-append (λ (i : QuoteItem). i.total) d.items_data (item ∷ [])),
      omega (arith, e, balance),
      omega (arith, f, tax),
    )

pub quote_lines-IsSummed :
    (db : Database) (items : List ItemDto) (d : Draft) {d' : Draft}
    → quote_lines db items d ≡ ok d'
    → IsSummed d
    → IsSummed d'
unfolding quote_lines
quote_lines-IsSummed db [] d h s = subst IsSummed (ok-injective h) s
quote_lines-IsSummed db (dto ∷ rest) d h s =
    let (d₁, h₁, h₂) = >>=-eq-ok (quote_line db dto d) _ h in
    let (product, variant, _, _, e) = quote_line-eq_ok db dto d h₁ in
    quote_lines-IsSummed db rest d₁ h₂
      (subst IsSummed (sym e) (add_quote_line-IsSummed d product variant dto s))
