-- ===== src/Lib.antt =====
-- The counter sale of a point of sale with several shops: apps/api, a NestJS service over a PostgreSQL
-- database that Prisma reads and writes. This library models the part that moves goods, money and
-- fiscal vouchers.
--
-- The parts and how they interact. A sale (OrdersService.create) reads the shift, the quote, the
-- seller's discount limit and the catalogue, takes the stock of every line by a guarded decrement,
-- checks the payments, numbers and inserts the order, and charges the customer's account with what is
-- paid on credit. A cancellation (OrdersService.cancel) checks, asks for the credit note of an issued
-- invoice outside any transaction, and then returns the stock, marks the order and reverses the charge.
-- A shift (CashShiftsService) expects in its drawer what it began with, the movements of cash, and the
-- cash of its sales that are not cancelled; a payment on account in cash (CustomersService) is one of
-- those movements. A quote (QuotesService) prices goods without taking them, and a sale may convert
-- it. A purchase brings goods in and sets their last cost, and bundles may follow the prices of their
-- components. Before every request stands the tenant's subscription to the service itself (billing): the
-- notices of Mercado Pago move its dates and state, and the interceptors refuse what its policy and
-- plan do not allow.
--
-- Which file models what:
--   Base, Base/Int, Base/Lists, Base/Outcome  shared names, signed integers, tables as lists, exceptions
--   Schema, Schema/Enums     packages/database/prisma/schema.prisma, and AuthUser of
--                            apps/api/src/common/types/auth-user.ts
--   Stock                    apps/api/src/stock/stock-mutations.ts; Stock/View is the quantity on hand,
--                            the abstract view that Stock/Moves, Stock/Guarded and Stock/Batches relate
--                            the tables to
--   Stock/Adjust             adjust of apps/api/src/stock/stock.service.ts
--   Stock/Available          apps/api/src/stock/stock-calculation.ts
--   Discounts                apps/api/src/discounts/discount-policy.service.ts
--   Customers/Account        apps/api/src/customers/customer-account.ts (applyAccountMovement), with
--                            Account/Balance and Account/Ledger
--   Customers/Payments       registerPayment and registerAdjustment of
--                            apps/api/src/customers/customers.service.ts
--   Afip/InvoiceTypes        apps/api/src/afip/invoice-type.util.ts
--   Afip/FeCaeAmounts        apps/api/src/afip/fe-cae-amounts.util.ts
--   Invoices/CreditNote      issueCreditNote of apps/api/src/invoices/invoices.service.ts
--   CashShifts               apps/api/src/cash-shifts/cash-shifts.service.ts
--   Orders/Pricing           the amounts of a line and assertDiscountWithinLimit
--   Orders/Lines             the loop of attemptCreate over the lines
--   Orders/Create            create and attemptCreate
--   Orders/Cancel            cancel
-- The last four are apps/api/src/orders/orders.service.ts.
--   Quotes                   quotes.service.ts and quote-state.util.ts of apps/api/src/quotes
--   Purchases                apps/api/src/purchases/purchases.service.ts
--   Products/BundlePricing   bundle-pricing.service.ts of apps/api/src/products
--   Products/BulkPrice       products-bulk-price.service.ts there
--   Products/Catalogue       update, addBundleItem and removeBundleItem of products.service.ts there
--   Products/Creation        create and addVariant there
--   Billing/Tenants          the tables of tenants and their events, of the same schema
--   Billing/Status           apps/api/src/billing/subscription-status.util.ts
--   Billing/Plan             apps/api/src/billing/plan.service.ts
--   Billing/Payments         subscription.service.ts, and dispatch and the exceptions of handle in
--                            mp-webhook.controller.ts, with Billing/Month for its dates
--   Billing/Answers          the calls of the plan service between notices
--   Billing/Enforcement      the two interceptors, subscription-enforcement and plan-feature
-- A module named Tests holds examples.
--
-- How it is modelled. A database is a record of tables, each the list of the rows that one tenant's
-- transaction sees. An operation is a function from a database to a result: a value with the
-- database after it, or an exception, which leaves the database as it was, since every operation is
-- one transaction. Ids are numbers; the one that a created row takes is the database's next_id.
-- What other transactions commit in the middle is an argument: the rival orders of a sale's number,
-- the rival shifts of a register, and a function on the database between the phases of a
-- cancellation and the transactions of a credit note, and one on the levels in an adjustment. The
-- retry of create, of a sale, a quote or a purchase, makes three attempts, as the code does, and the
-- result says so when they are used up. Every other loop is a recursion on a list, but for the chunks
-- of a change of prices, which has as many turns as products and needs no more, since each turn takes
-- one at least. A date is its milliseconds since 1970, and the service's clock keeps universal time,
-- so that a day is 86,400,000 of them and the months are those of the Gregorian calendar. The days of
-- grace and of warning are whole. Texts that the code compares, the states that Mercado Pago reports
-- and the paths and methods of requests, are texts.
--
-- Numbers. The code computes with IEEE doubles; the model computes with exact fixed-point numbers
-- instead, in units that hold the products without rounding: prices in cents, quantities of a line in
-- thousandths, money in hundred-thousandths of a peso, stock in millionths, percentages in hundredths.
-- The money of the rows of sales, quotes and purchases is rounded to the cent where it is stored
-- (stored_money), as their Decimal(12, 2) columns do; payments and movements of cash are taken in whole
-- cents. Stock is not rounded to its three decimals, which differs where a bundle with a fraction of a
-- component is sold in a fraction. The errors of doubles are outside the model: what is shown of an
-- availability is restricted to whole units, on which doubles are exact, and what is shown of payments
-- bounds a sale that goes through and does not decide one that is short by exactly a cent.
-- The division of the contained tax is rounded down; the amounts of an invoice are rounded to cents
-- as the code rounds them. Amounts that the validators of the requests keep from being negative are
-- natural numbers; balances, stock and differences are integers.
--
-- Not modelled: the authority's service (its answer is an argument), the switch of the fiscal feature
-- (a Boolean argument), the quota's answer to the creation of a product (an argument, which the check
-- of Billing/Plan answers), the queue that the online shops are synchronised through (its entries are a
-- result), the calls and signatures of Mercado Pago (a notice is an argument), plain queries, texts of
-- messages and metadata of the audit log (whose entity for an adjustment is the target),
-- the clearing of an alert level by null, authentication, and the user interface.
pub mod Base
pub mod Schema
pub mod Stock
pub mod Discounts
pub mod Customers
pub mod Afip
pub mod Invoices
pub mod CashShifts
pub mod Orders
pub mod Billing
pub mod Quotes
pub mod Purchases
pub mod Products
