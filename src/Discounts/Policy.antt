-- ===== src/Discounts/Policy.antt =====
-- The limit that a sale uses against what the settings page shows and sets.
use punto_de_venta_local_con.Base.{
  ◌≢◌, ℕ, ◌≡◌, inl, inr, refl, not, Option, none, some, List, [], ◌∷◌, arith, Option-cases,
  if◌then◌else◌,
}
use punto_de_venta_local_con.Base.Lists.{filter, any, update_where, All}
use punto_de_venta_local_con.Base.Outcome.{
  ok, throw_if, >>-eq-ok, ok-injective, bad_request, role_does_not_sell,
}
use punto_de_venta_local_con.Schema.{UserRole, DiscountPolicy, same_role, role_index, same_role→eq}
use punto_de_venta_local_con.Discounts.{
  selling_roles, default_discount_limit, find_policy, find_limit_for, find_all, write_policy, set,
}

-- Every row of the settings page shows the limit that a sale by that role is checked against.
pub find_all-find_limit_for :
    (policies : List DiscountPolicy)
    → All (λ e. find_limit_for policies e.role ≡ some e.max_percent) (find_all policies)
unfolding find_limit_for find_all role_index
find_all-find_limit_for policies = ground arith

-- The percentage that the database holds for a role.
percent_of : UserRole → List DiscountPolicy → Option ℕ
percent_of role [] = none
percent_of role (p ∷ policies) =
    if same_role p.role role then some p.max_percent else percent_of role policies

find_limit_for-percent_of :
    (role : UserRole) (policies : List DiscountPolicy)
    → find_limit_for policies role
      ≡ elim (percent_of role policies) [ some x ↦ some x | none ↦ default_discount_limit role ]
unfolding find_limit_for percent_of
find_limit_for-percent_of role [] = refl
find_limit_for-percent_of role (p ∷ policies) =
    ground (arith, find_limit_for-percent_of role policies)

percent_of-filter :
    (role other : UserRole) (policies : List DiscountPolicy)
    → percent_of other (filter (λ p. not (same_role p.role role)) policies)
      ≡ (if same_role role other then none else percent_of other policies)
unfolding percent_of
percent_of-filter role other [] = ground arith
percent_of-filter role other (p ∷ policies) = ground (arith, percent_of-filter role other policies)

percent_of-update_where :
    (role other : UserRole) (percent : ℕ) (policies : List DiscountPolicy)
    → percent_of other (
        update_where
          (λ p. same_role p.role role)
          (λ p. record p { max_percent = percent })
          policies)
      ≡ (if same_role role other
          then elim (percent_of other policies) [ none ↦ none | some x ↦ some percent ]
          else percent_of other policies)
unfolding percent_of
percent_of-update_where role other percent [] = ground arith
percent_of-update_where role other percent (p ∷ policies) =
    ground (arith, percent_of-update_where role other percent policies)

percent_of_found :
    (role : UserRole) (policies : List DiscountPolicy)
    → percent_of role policies
      ≡ elim (find_policy role policies) [ none ↦ none | some p ↦ some p.max_percent ]
unfolding percent_of find_policy
percent_of_found role [] = refl
percent_of_found role (p ∷ policies) = ground (arith, percent_of_found role policies)

-- What `set` writes leaves one percentage for the role, or none, and every other role's as it was.
percent_of-write_policy :
    (role other : UserRole) (max_percent : Option ℕ) (policies : List DiscountPolicy)
    → percent_of other (write_policy role max_percent (find_policy role policies) policies)
      ≡ (if same_role role other then max_percent else percent_of other policies)
unfolding write_policy
percent_of-write_policy role other none policies = elim (Option-cases (find_policy role policies)) [
  | inl e ↦ rw e (ground (arith, same_role→eq role other, percent_of_found role policies))
  | inr (p, e) ↦ rw e (percent_of-filter role other policies)
]
percent_of-write_policy role other (some x) policies =
    elim (Option-cases (find_policy role policies)) [
      | inl e ↦ rw e (unfold percent_of in refl)
      | inr (p, e) ↦
          rw (e, percent_of-update_where role other x policies)
            (ground (arith, same_role→eq role other, percent_of_found role policies))
    ]

-- After a percentage is set for a role that sells, its limit is that percentage, or without one the
-- default; the limits of the other roles are as before.
pub find_limit_for-set :
    (role : UserRole) (max_percent : Option ℕ) (policies : List DiscountPolicy)
    {policies' : List DiscountPolicy}
    → set role max_percent policies ≡ ok policies'
    → (find_limit_for policies' role
        ≡ elim max_percent [ some x ↦ some x | none ↦ default_discount_limit role ])
      × ((other : UserRole)
          → other ≢ role
          → find_limit_for policies' other ≡ find_limit_for policies other)
unfolding set
find_limit_for-set role max_percent policies {policies'} e =
    let same : write_policy role max_percent (find_policy role policies) policies ≡ policies' =
      ok-injective
        (>>-eq-ok
          (throw_if (not (any (same_role role) selling_roles)) (bad_request role_does_not_sell)) _
          e).1 in
    (
      rw (← same, find_limit_for-percent_of, percent_of-write_policy) (ground arith),
      λ other ne.
          rw
            (
              ← same,
              find_limit_for-percent_of _
                  (write_policy role max_percent (find_policy role policies) policies),
              find_limit_for-percent_of _ policies,
              percent_of-write_policy,
            )
            (ground (arith, same_role→eq role other)),
    )
