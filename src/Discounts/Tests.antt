-- ===== src/Discounts/Tests.antt =====
-- Examples of discount limits.
use punto_de_venta_local_con.Base.{◌≡◌, refl, some, List, [], ◌∷◌}
use punto_de_venta_local_con.Base.Outcome.{ok}
use punto_de_venta_local_con.Schema.{cashier, manager, DiscountPolicy, role_index}
use punto_de_venta_local_con.Discounts.{set}

abbrev policies : List DiscountPolicy
policies = record { role = manager; max_percent = 1500 } ∷ []

abbrev changed : List DiscountPolicy
changed = record { role = cashier; max_percent = 200 } ∷ policies

cashier-set : set cashier (some 200) policies ≡ ok changed
unfolding set role_index
cashier-set = refl
