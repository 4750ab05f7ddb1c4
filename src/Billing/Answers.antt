-- ===== src/Billing/Answers.antt =====
-- The plans that a running service answers with, against those of the rows.
use punto_de_venta_local_con.Base.{ℕ, ◌≡◌, refl, ap, ◌∙◌, List, [], ◌∷◌}
use punto_de_venta_local_con.Billing.Tenants.{Platform}
use punto_de_venta_local_con.Billing.Plan.{PlanInfo, Service, get_plan}
use punto_de_venta_local_con.Billing.Plan.Cache.{IsCoherent, plan_in_row, get_plan-IsAnswer}
use punto_de_venta_local_con.Billing.Payments.{Notice, deliver}
use punto_de_venta_local_con.Billing.Payments.Plans.{
  restarted, deliver-IsCoherent, deliver_platform,
}

-- A call of the service: a plan that is asked for at a time, or a notice of Mercado Pago.
pub data Call : Type 0 where
  plan_of : ℕ → ℕ → Call
  notice : Notice → Call

-- The answers of the service to the questions among the calls.
unfoldable pub answers : List Call → Service → List PlanInfo
answers [] s = []
answers (plan_of now id ∷ calls) s = (get_plan now id s).0 ∷ answers calls (get_plan now id s).1
answers (notice n ∷ calls) s = answers calls (deliver n s)

-- The plans of the rows, with no cache.
unfoldable pub answers_of_rows : List Call → Platform → List PlanInfo
answers_of_rows [] p = []
answers_of_rows (plan_of now id ∷ calls) p = plan_in_row id p.tenants ∷ answers_of_rows calls p
answers_of_rows (notice n ∷ calls) p = answers_of_rows calls (deliver n (restarted p)).platform

-- While only notices change the tenants, the cache of plans cannot be observed: however questions and
-- notices alternate and however late they come, a service whose cache agrees with the rows answers
-- every question about a plan by the row as it then is.
pub answers_refine :
    (calls : List Call) (s : Service)
    → IsCoherent s
    → answers calls s ≡ answers_of_rows calls s.platform
unfolding answers answers_of_rows
answers_refine [] s c = refl
answers_refine (plan_of now id ∷ calls) s c =
    let (info, c', same) = get_plan-IsAnswer now id s c in
    let rest = answers_refine calls (get_plan now id s).1 c' in cc
answers_refine (notice n ∷ calls) s c =
    answers_refine calls (deliver n s) (deliver-IsCoherent n s c)
    ∙ ap (answers_of_rows calls) (deliver_platform n s)
