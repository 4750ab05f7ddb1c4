-- ===== src/Invoices/CreditNote/Stored.antt =====
-- What a credit note that was issued has checked and stored.
use punto_de_venta_local_con.Base.{
  ℕ, suc, ◌≡◌, refl, Bool, false, not, some, ◌∷◌, ◌==◌, ◌||◌, same_id, is_some,
}
use punto_de_venta_local_con.Base.Lists.{find, any}
use punto_de_venta_local_con.Base.Outcome.{
  ok, err, not_found, bad_request, forbidden, conflict, invoice_missing, not_authorized,
  no_credit_note, already_voided, no_fiscal_config, credit_note_failed, feature_disabled,
  unique_violation, throw_if, or_throw, >>=-eq-ok, >>-eq-ok, or_throw-eq-ok, throw_if-eq-ok,
  ok-injective,
}
use punto_de_venta_local_con.Schema.{Database, is_issued}
use punto_de_venta_local_con.Afip.InvoiceTypes.{credit_note_type_for}
use punto_de_venta_local_con.Invoices.CreditNote.{
  Prepared, AfipAnswer, failed, refused, approved, prepare_credit_note, note_row, note_clashes,
  store_credit_note, issue_credit_note,
}

-- What the first transaction has checked.
pub record IsPrepared (db : Database) (id : ℕ) (p : Prepared) : Type 0 where
  pub found : find (λ i. i.id == id) db.invoices ≡ some p.original
  pub issued : (not (is_issued p.original.status) || not (is_some p.original.cae)) ≡ false
  pub note_type : credit_note_type_for p.original.invoice_type ≡ some p.note_type
  pub unvoided : any (λ i. same_id i.related_invoice_id (some p.original.id)) db.invoices ≡ false
  pub config :
      find (λ c. c.store_id == p.original.store_id) db.fiscal_configs ≡ some p.fiscal_config

prepare-IsPrepared :
    (db : Database) (id : ℕ) {p : Prepared} → prepare_credit_note db id ≡ ok p → IsPrepared db id p
unfolding prepare_credit_note
prepare-IsPrepared db id {p} e =
    let (original, found, e₁) =
      >>=-eq-ok (or_throw (find (λ i. i.id == id) db.invoices) (not_found invoice_missing)) _ e in
    let (issued, e₂) =
      >>-eq-ok
        (throw_if (not (is_issued original.status) || not (is_some original.cae))
          (bad_request not_authorized))
        _ e₁ in
    let (note_type, type_found, e₃) =
      >>=-eq-ok (or_throw (credit_note_type_for original.invoice_type) (bad_request no_credit_note))
        _ e₂ in
    let (unvoided, e₄) =
      >>-eq-ok
        (throw_if (any (λ i. same_id i.related_invoice_id (some original.id)) db.invoices)
          (conflict already_voided))
        _ e₃ in
    let (config, config_found, e₅) =
      >>=-eq-ok
        (or_throw (find (λ c. c.store_id == original.store_id) db.fiscal_configs)
          (bad_request no_fiscal_config))
        _ e₄ in
    rw (← ok-injective e₅) (record {
      found = or_throw-eq-ok _ _ found;
      issued = throw_if-eq-ok _ _ issued;
      note_type = or_throw-eq-ok _ _ type_found;
      unvoided = throw_if-eq-ok _ _ unvoided;
      config = or_throw-eq-ok _ _ config_found;
    })

-- What a call that succeeded has stored over what other requests had left.
pub record IsVoided (db left : Database) (id : ℕ) (db' : Database) : Type 0 where
  pub prepared : Prepared
  pub number : ℕ
  pub cae : ℕ
  pub checked : IsPrepared db id prepared
  pub free : any (note_clashes (note_row prepared left.next_id number cae)) left.invoices ≡ false
  pub after : db' ≡ record left {
    invoices = note_row prepared left.next_id number cae ∷ left.invoices;
    next_id = suc left.next_id;
  }

store-IsVoided :
    (p : Prepared) (number cae : ℕ) (db left : Database) (id : ℕ) {stored : ℕ × Database}
    → IsPrepared db id p
    → store_credit_note p number cae left ≡ ok stored
    → IsVoided db left id stored.1
unfolding store_credit_note
store-IsVoided p number cae db left id {stored} c e =
    let clash = any (note_clashes (note_row p left.next_id number cae)) left.invoices in
    let (free, same) = >>-eq-ok (throw_if clash unique_violation) _ e in
    rw (← ok-injective same) (record {
      prepared = p;
      number = number;
      cae = cae;
      checked = c;
      free = throw_if-eq-ok _ _ free;
      after = refl;
    })

answer-IsVoided :
    (p : Prepared) (answer : AfipAnswer) (db left : Database) (id : ℕ) {stored : ℕ × Database}
    → IsPrepared db id p
    → (elim answer [
      | failed ↦ err (bad_request credit_note_failed)
      | refused ↦ err (bad_request credit_note_failed)
      | approved number cae ↦ store_credit_note p number cae left
    ])
      ≡ ok stored
    → IsVoided db left id stored.1
answer-IsVoided p failed db left id c e = cc
answer-IsVoided p refused db left id c e = cc
answer-IsVoided p (approved number cae) db left id {stored} c e =
    store-IsVoided p number cae db left id {stored = stored} c e

pub issue-IsVoided :
    (enabled : Bool) (afip : Prepared → AfipAnswer) (others : Database → Database) (db : Database)
    (id : ℕ) {stored : ℕ × Database}
    → issue_credit_note enabled afip others db id ≡ ok stored
    → IsVoided db (others db) id stored.1
unfolding issue_credit_note
issue-IsVoided enabled afip others db id {stored} e =
    let (on, e₁) = >>-eq-ok (throw_if (not enabled) (forbidden feature_disabled)) _ e in
    let (p, prepared, e₂) = >>=-eq-ok (prepare_credit_note db id) _ e₁ in
    answer-IsVoided p (afip p) db (others db) id {stored = stored}
      (prepare-IsPrepared db id {p = p} prepared) e₂
