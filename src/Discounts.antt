-- ===== src/Discounts.antt =====
-- apps/api/src/discounts/discount-policy.service.ts: how much each role may discount.
pub mod Policy
mod Tests
use punto_de_venta_local_con.Base.{
  ℕ, Bool, true, false, not, Option, none, some, List, [], ◌∷◌, ◌++◌, map, or_else, is_some,
  if◌then◌else◌,
}
use punto_de_venta_local_con.Base.Lists.{find, filter, any, update_where}
use punto_de_venta_local_con.Base.Outcome.{
  Result, ok, err, bad_request, role_does_not_sell, ◌>>=◌, ◌>>◌, throw_if,
}
use punto_de_venta_local_con.Schema.{
  UserRole, superadmin, owner, admin, manager, cashier, DiscountPolicy, same_role,
}

-- `NO_LIMIT`, 100 percent.
abbrev pub no_limit : ℕ
no_limit = 10_000

abbrev pub selling_roles : List UserRole
selling_roles = owner ∷ admin ∷ manager ∷ cashier ∷ []

-- `DEFAULT_DISCOUNT_LIMITS`
unfoldable pub default_discount_limit : UserRole → Option ℕ
default_discount_limit cashier = some 0
default_discount_limit manager = some 1000
default_discount_limit admin = some no_limit
default_discount_limit owner = some no_limit
default_discount_limit superadmin = none

unfoldable pub find_policy : UserRole → List DiscountPolicy → Option DiscountPolicy
find_policy role policies = find (λ p. same_role p.role role) policies

-- `findLimitFor`
unfoldable pub find_limit_for : List DiscountPolicy → UserRole → Option ℕ
unfolding find_policy default_discount_limit
find_limit_for policies role = elim (find_policy role policies) [
  | some policy ↦ some policy.max_percent
  | none ↦ default_discount_limit role
]

pub record EffectivePolicy : Type 0 where
  pub role : UserRole
  pub max_percent : ℕ
  pub is_default : Bool

abbrev pub effective_policy : List DiscountPolicy → UserRole → EffectivePolicy
effective_policy policies role = record {
  role = role;
  max_percent = elim (find_policy role policies) [
    | some policy ↦ policy.max_percent
    | none ↦ or_else (default_discount_limit role) no_limit
  ];
  is_default = not (is_some (find_policy role policies));
}

-- `findAll`; the map built from the rows keeps the last row of a role, and the unique index leaves one.
unfoldable pub find_all : List DiscountPolicy → List EffectivePolicy
unfolding find_policy default_discount_limit
find_all policies = map (effective_policy policies) selling_roles

unfoldable pub write_policy :
    UserRole → Option ℕ → Option DiscountPolicy → List DiscountPolicy → List DiscountPolicy
write_policy role none none policies = policies
write_policy role none (some existing) policies = filter (λ p. not (same_role p.role role)) policies
write_policy role (some percent) (some existing) policies =
    update_where (λ p. same_role p.role role) (λ p. record p { max_percent = percent }) policies
write_policy role (some percent) none policies =
    record { role = role; max_percent = percent } ∷ policies

-- `set`: no percentage deletes the row of the role.
unfoldable pub set : UserRole → Option ℕ → List DiscountPolicy → Result (List DiscountPolicy)
unfolding find_policy write_policy
set role max_percent policies = do
  throw_if (not (any (same_role role) selling_roles)) (bad_request role_does_not_sell)
  ok (write_policy role max_percent (find_policy role policies) policies)
