-- ===== src/Base/Outcome.antt =====
-- What a service call ends in: a value, or one of the exceptions that the handlers throw. The
-- message of an exception is named by its `Reason`.
use punto_de_venta_local_con.Base.{
  ⊤, ◌≡◌, ◌⊎◌, inl, inr, refl, Bool, true, false, Option, none, some, arith,
}

pub data Reason : Type 0 where
  supplier_missing bundle_without_components : Reason
  category_missing not_a_bundle bundle_of_itself component_missing component_variant_missing
        bundle_in_bundle price_is_derived product_taken bundle_item_missing simple_has_variants
        simple_has_components variable_needs_variants variable_has_barcode variable_has_components
        bundle_needs_components bundle_has_variants bundle_has_stock not_variable :
      Reason
  store_missing shift_missing product_missing variant_missing quote_missing : Reason
  order_missing customer_missing register_missing : Reason
  shift_required payment_needs_shift shift_not_open shift_of_other_user quote_converted
        quote_annulled quote_already_converted quote_already_cancelled :
      Reason
  empty_bundle stock_insufficient discount_over_limit : Reason
  payment_insufficient overpaid_without_cash customer_required credit_limit_exceeded : Reason
  order_already_cancelled shift_already_closed credit_note_failed : Reason
  register_inactive register_in_use target_shape quantity_shape bundle_has_no_stock
        role_does_not_sell :
      Reason
  tenant_missing demo_expired subscription_overdue subscription_read_only premium_feature
        quota_exceeded :
      Reason
  invoice_missing not_authorized no_credit_note already_voided no_fiscal_config feature_disabled :
      Reason

pub data Error : Type 0 where
  not_found bad_request forbidden conflict : Reason → Error
  -- `P2002`, the database's refusal of a row that breaks a unique index
  unique_violation : Error
  -- `P2025`, its refusal to update a row that is not there
  row_missing : Error

pub data Result {ℓ} (Value : Type ℓ) : Type ℓ where
  err : Error → Result Value
  ok : Value → Result Value

-- `if (c) throw e`
abbrev pub throw_if : Bool → Error → Result ⊤
throw_if true e = err e
throw_if false e = ok tt

-- `if (!row) throw e`
abbrev pub or_throw {ℓ} : {A : Type ℓ} → Option A → Error → Result A
or_throw none e = err e
or_throw (some a) e = ok a

-- `await call`, then the rest of the handler with its value, or with none.
infixl 5 ◌>>=◌ ◌>>◌
abbrev pub ◌>>=◌ {ℓ κ} : {A : Type ℓ} {B : Type κ} → Result A → (A → Result B) → Result B
err thrown >>= rest = err thrown
ok value >>= rest = rest value

abbrev pub ◌>>◌ {ℓ} : {B : Type ℓ} → Result ⊤ → Result B → Result B
check >> rest = check >>= λ passed. rest

-- A handler that succeeded has got a value from its first call and gone on with it.
module _ {ℓ κ} {Value : Type ℓ} {Answer : Type κ} where
  pub >>=-eq-ok :
      (call : Result Value) (rest : Value → Result Answer) {answer : Answer}
      → (call >>= rest) ≡ ok answer
      → (value : Value) × (call ≡ ok value) × (rest value ≡ ok answer)
  >>=-eq-ok (err thrown) rest h = cc
  >>=-eq-ok (ok value) rest h = (value, refl, h)

  -- A handler succeeds if its first call and what follows do.
  pub >>=-ok :
      (call : Result Value) (rest : Value → Result Answer) (value : Value)
      → call ≡ ok value
      → ((answer : Answer) × (rest value ≡ ok answer))
      → (answer : Answer) × ((call >>= rest) ≡ ok answer)
  >>=-ok call rest value same (answer, e) = (answer, rw same e)

-- Two binds in a row, with their join given pointwise.
pub >>=_assoc {ℓ} :
    {A B C : Type ℓ} (m : Result A) (f : A → Result B) (g : B → Result C) (h : A → Result C)
    → ((a : A) → h a ≡ (f a >>= g))
    → (m >>= h) ≡ (m >>= f >>= g)
>>=_assoc (ok a) f g h e = e a
>>=_assoc (err x) f g h e = refl

pub >>-eq-ok {ℓ} :
    {B : Type ℓ} (m : Result ⊤) (k : Result B) {b : B} → (m >> k) ≡ ok b → (m ≡ ok tt) × (k ≡ ok b)
>>-eq-ok (ok tt) k h = (refl, h)
>>-eq-ok (err e) k h = cc

pub throw_if-eq-ok : (c : Bool) (e : Error) → throw_if c e ≡ ok tt → c ≡ false
throw_if-eq-ok c e h = ground arith

pub or_throw-eq-ok {ℓ} :
    {A : Type ℓ} (o : Option A) (e : Error) {a : A} → or_throw o e ≡ ok a → o ≡ some a
or_throw-eq-ok none e h = cc
or_throw-eq-ok (some b) e h = cc

pub ok-injective {ℓ} : {A : Type ℓ} {a b : A} → ok a ≡ ok b → a ≡ b
ok-injective h = cc

-- A function under the result.
abbrev pub map_result {ℓ κ} : {A : Type ℓ} {B : Type κ} → (A → B) → Result A → Result B
map_result f (ok a) = ok (f a)
map_result f (err e) = err e

-- Chains that agree step by step agree.
pub >>=-map_result {ℓ κ} :
    {A B : Type ℓ} {C D : Type κ} (m : Result A) (k : A → B) (f : A → Result C) (g : B → Result D)
    (h : C → D)
    → ((a : A) → g (k a) ≡ map_result h (f a))
    → (map_result k m >>= g) ≡ map_result h (m >>= f)
>>=-map_result (ok a) k f g h e = e a
>>=-map_result (err x) k f g h e = refl

pub >>=-map_ok {ℓ κ} :
    {A : Type ℓ} {C D : Type κ} (m : Result A) (f : A → Result C) (g : A → Result D) (h : C → D)
    → ((a : A) → g a ≡ map_result h (f a))
    → (m >>= g) ≡ map_result h (m >>= f)
>>=-map_ok (ok a) f g h e = e a
>>=-map_ok (err x) f g h e = refl

pub Result-cases {ℓ} :
    {A : Type ℓ} (r : Result A) → ((a : A) × (r ≡ ok a)) ⊎ ((e : Error) × (r ≡ err e))
Result-cases (ok a) = inl (a, refl)
Result-cases (err e) = inr (e, refl)
