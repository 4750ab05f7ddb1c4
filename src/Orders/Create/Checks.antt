-- ===== src/Orders/Create/Checks.antt =====
-- What the checks of a sale let through.
use punto_de_venta_local_con.Base.{
  ℕ, ◌+◌, ◌≤◌, ◌≡◌, ◌⊎◌, inl, inr, true, false, some, List, ◌==◌, ◌&&◌, arith, Option-cases,
}
use punto_de_venta_local_con.Base.Lists.{find, any}
use punto_de_venta_local_con.Base.Outcome.{
  ok, not_found, store_missing, shift_missing, or_throw, >>=-eq-ok, >>-eq-ok, or_throw-eq-ok,
}
use punto_de_venta_local_con.Schema.{
  Database, Order, CashShift, AuthUser, is_cash, is_opened, is_cashier,
}
use punto_de_venta_local_con.Discounts.{find_limit_for}
use punto_de_venta_local_con.Orders.Pricing.{amount_epsilon, assert_discount_within_limit}
use punto_de_venta_local_con.Orders.Lines.{Cart, start, resolve_items}
use punto_de_venta_local_con.Orders.Create.{
  CreateOrderDto, Created, check_shift, check_quote, check_payments, total_paid, write_order,
  attempt_create,
}

-- The steps of a sale that went through.
pub record Passes (rivals : List Order) (actor : AuthUser) (dto : CreateOrderDto) (db : Database)
    (created : Created) : Type 0 where
  pub cart : Cart
  pub shift : check_shift db actor dto ≡ ok tt
  pub quote : check_quote db dto ≡ ok tt
  pub resolved :
      resolve_items db dto.store_id
        (find_limit_for db.discount_policies actor.role)
        dto.items
        (start db.stock_levels)
      ≡ ok cart
  pub discount :
      assert_discount_within_limit
        (find_limit_for db.discount_policies actor.role)
        cart.discount_amount
        cart.subtotal
      ≡ ok tt
  pub payments : check_payments cart.total dto ≡ ok tt
  pub written : write_order rivals actor dto cart db ≡ ok created

pub attempt_create-Passes :
    (rivals : List Order) (actor : AuthUser) (dto : CreateOrderDto) (db : Database)
    {created : Created}
    → attempt_create rivals actor dto db ≡ ok created
    → Passes rivals actor dto db created
unfolding attempt_create
attempt_create-Passes rivals actor dto db {created} e =
    let limit = find_limit_for db.discount_policies actor.role in
    let (_, _, e₁) =
      >>=-eq-ok (or_throw (find (λ s. s.id == dto.store_id) db.stores) (not_found store_missing)) _
        e in
    let (shift, e₂) = >>-eq-ok (check_shift db actor dto) _ e₁ in
    let (quote, e₃) = >>-eq-ok (check_quote db dto) _ e₂ in
    let (cart, resolved, e₄) =
      >>=-eq-ok (resolve_items db dto.store_id limit dto.items (start db.stock_levels)) _ e₃ in
    let (discount, e₅) =
      >>-eq-ok (assert_discount_within_limit limit cart.discount_amount cart.subtotal) _ e₄ in
    let (payments, written) = >>-eq-ok (check_payments cart.total dto) _ e₅ in
    record {
      cart = cart;
      shift = shift;
      quote = quote;
      resolved = resolved;
      discount = discount;
      payments = payments;
      written = written;
    }

-- Payments that go through cover the total to within a cent, and exceed it by more only with a cash
-- payment among them.
pub check_payments_sound :
    (total : ℕ) (dto : CreateOrderDto)
    → check_payments total dto ≡ ok tt
    → (total ≤ total_paid dto.payments + amount_epsilon)
      × ((total_paid dto.payments ≤ total + amount_epsilon)
          ⊎ (any (λ p. is_cash p.method) dto.payments ≡ true))
unfolding check_payments
check_payments_sound total dto h = ground arith

-- The shift of a sale that goes through is open, of the sale's store, and a cashier's own.
pub check_shift_sound :
    (db : Database) (actor : AuthUser) (dto : CreateOrderDto)
    → check_shift db actor dto ≡ ok tt
    → (id : ℕ) × (shift : CashShift) × (dto.cash_shift_id ≡ some id)
      × (find (λ s. s.id == id && s.store_id == dto.store_id) db.cash_shifts ≡ some shift)
      × (is_opened shift.status ≡ true)
      × ((is_cashier actor.role ≡ false) ⊎ (shift.user_id ≡ actor.user_id))
unfolding check_shift
check_shift_sound db actor dto e = elim (Option-cases dto.cash_shift_id) [
  | inl missing ↦ absurd (cc (rw missing at e))
  | inr (id, given) ↦
      let (shift, found, e₁) =
        >>=-eq-ok
          (or_throw (find (λ s. s.id == id && s.store_id == dto.store_id) db.cash_shifts)
            (not_found shift_missing))
          _ (rw given at e) in
      (id, shift, given, or_throw-eq-ok _ _ found, ground arith, ground arith)
]
