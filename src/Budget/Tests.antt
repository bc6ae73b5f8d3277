-- ===== src/Budget/Tests.antt =====
-- Runs of the budget.
use ragr.Prelude.{ltb, if◌then◌else◌, ◌+◌, ◌≡◌, refl, true, false, some, [], ◌∷◌}
use ragr.Samples.{model}
use ragr.Budget.{check_budget, record_usage, get_current_month_usage}
use ragr.Budget.Laws.{
  Call, record_all, recorded, recorded_in, total_of, spent, called, monthly_limit,
  recorded-record_all, check_budget-eq,
}

-- A million tokens in and two million out cost 11 USD, above the platform's cap.
abbrev costly : Call
costly = record {
  model = model;
  month = "2026-01";
  input_tokens = 1_000_000;
  output_tokens = 2_000_000;
}

over_cap : check_budget (record_all [] (costly ∷ [])) model "2026-01" ≡ false
unfolding check_budget record_usage get_current_month_usage
over_cap = refl

own_key :
    check_budget
      (record_all [] (costly ∷ []))
      (record model { custom_anthropic_key = some "k" })
      "2026-01"
    ≡ true
unfolding check_budget record_usage get_current_month_usage
own_key = refl

recorded-record_all_example :
    let calls = costly ∷ costly ∷ [] in
    let after = record_all [] calls in
    (recorded_in (λ u. u.total_input_tokens) after 1 "2026-01"
      ≡ recorded_in (λ u. u.total_input_tokens) [] 1 "2026-01"
        + total_of (λ c. c.input_tokens) 1 "2026-01" calls)
    × ((recorded_in (λ u. u.total_output_tokens) after 1 "2026-01"
          ≡ recorded_in (λ u. u.total_output_tokens) [] 1 "2026-01"
            + total_of (λ c. c.output_tokens) 1 "2026-01" calls)
        × (recorded after 1 "2026-01" ≡ recorded [] 1 "2026-01" + spent 1 "2026-01" calls))
recorded-record_all_example = recorded-record_all [] (costly ∷ costly ∷ []) 1 "2026-01"

check_budget-eq_example : check_budget (record_all [] (costly ∷ [])) model "2026-02" ≡ (
    if called 1 "2026-02" (costly ∷ [])
    then ltb (spent 1 "2026-02" (costly ∷ [])) (monthly_limit model)
    else true)
check_budget-eq_example = check_budget-eq (costly ∷ []) model "2026-02"
