-- ===== src/Budget/Laws.antt =====
-- What the usage table holds after some calls, and what the budget check makes of it.
use ragr.Prelude.{
  ltb, ◌==◌, if◌then◌else◌, any, ℕ, ◌+◌, min, String, ◌≡◌, refl, ap, ◌∙◌, Bool, true, false, ◌&&◌,
  ◌||◌, Option, none, some, List, [], ◌∷◌, arith, str_eq, eq_iff,
}
use ragr.Models.{RagModel, truthy}
use ragr.Models.Chat.{TokenUsage}
use ragr.Budget.{
  UsageTable, is_usage_of, get_current_month_usage, add_usage, upsert_usage, record_usage,
  estimate_cost, check_budget, platform_budget_cap,
}

-- One call: a model, a month, and the tokens that were used.
pub record Call : Type 0 where
  pub model : RagModel
  pub month : String
  pub input_tokens : ℕ
  pub output_tokens : ℕ

abbrev pub record_all : UsageTable → List Call → UsageTable
record_all table [] = table
record_all table (c ∷ calls) =
    record_all (record_usage table c.model c.month c.input_tokens c.output_tokens) calls

-- What the calls of one model in one month cost.
abbrev pub spent : ℕ → String → List Call → ℕ
spent model_id month [] = 0
spent model_id month (c ∷ calls) =
    (if c.model.id == model_id && str_eq c.month month
      then estimate_cost c.model.generation_model c.input_tokens c.output_tokens
      else 0)
    + spent model_id month calls

-- The month's recorded cost, 0 without a row.
abbrev pub cost_of : Option TokenUsage → ℕ
cost_of none = 0
cost_of (some u) = u.estimated_cost

abbrev pub recorded : UsageTable → ℕ → String → ℕ
recorded table model_id month = cost_of (get_current_month_usage table model_id month)

recorded-upsert_usage :
    (table : UsageTable) (new : TokenUsage) (model_id : ℕ) (month : String)
    → recorded (upsert_usage table new) model_id month
      ≡ recorded table model_id month
        + (if is_usage_of model_id month new then new.estimated_cost else 0)
unfolding get_current_month_usage upsert_usage
recorded-upsert_usage [] new model_id month = ground arith
recorded-upsert_usage (u ∷ table) new model_id month = ground (
  arith,
  recorded-upsert_usage table new model_id month,
  eq_iff u.month new.month,
  eq_iff u.month month,
  eq_iff new.month month,
)

recorded-record_usage :
    (table : UsageTable) (c : Call) (model_id : ℕ) (month : String)
    → recorded (record_usage table c.model c.month c.input_tokens c.output_tokens) model_id month
      ≡ recorded table model_id month
        + (if c.model.id == model_id && str_eq c.month month
            then estimate_cost c.model.generation_model c.input_tokens c.output_tokens
            else 0)
unfolding record_usage
recorded-record_usage table c model_id month = recorded-upsert_usage table _ model_id month

cost-record_all :
    (table : UsageTable) (calls : List Call) (model_id : ℕ) (month : String)
    → recorded (record_all table calls) model_id month
      ≡ recorded table model_id month + spent model_id month calls
cost-record_all table [] model_id month = omega arith
cost-record_all table (c ∷ calls) model_id month = omega (
  arith,
  cost-record_all (record_usage table c.model c.month c.input_tokens c.output_tokens) calls model_id
      month,
  recorded-record_usage table c model_id month,
)

-- What the calls of one model in one month sum to, in some measure of a call.
abbrev pub total_of : (Call → ℕ) → ℕ → String → List Call → ℕ
total_of measure model_id month [] = 0
total_of measure model_id month (c ∷ calls) =
    (if c.model.id == model_id && str_eq c.month month then measure c else 0)
    + total_of measure model_id month calls

-- A column of the month's row, 0 without a row.
abbrev pub column_of : (TokenUsage → ℕ) → Option TokenUsage → ℕ
column_of column none = 0
column_of column (some u) = column u

abbrev pub recorded_in : (TokenUsage → ℕ) → UsageTable → ℕ → String → ℕ
recorded_in column table model_id month =
    column_of column (get_current_month_usage table model_id month)

module _ (column : TokenUsage → ℕ)
    (adds : (old new : TokenUsage) → column (add_usage old new) ≡ column old + column new) where
  column-upsert_usage :
      (table : UsageTable) (new : TokenUsage) (model_id : ℕ) (month : String)
      → recorded_in column (upsert_usage table new) model_id month
        ≡ recorded_in column table model_id month
          + (if is_usage_of model_id month new then column new else 0)
  unfolding get_current_month_usage upsert_usage
  column-upsert_usage [] new model_id month = ground arith
  column-upsert_usage (u ∷ table) new model_id month = ground (
    arith,
    column-upsert_usage table new model_id month,
    adds u new,
    eq_iff u.month new.month,
    eq_iff u.month month,
    eq_iff new.month month,
  )

  abbrev row_of : Call → TokenUsage
  row_of c = record {
    model_id = c.model.id;
    month = c.month;
    total_input_tokens = c.input_tokens;
    total_output_tokens = c.output_tokens;
    estimated_cost = estimate_cost c.model.generation_model c.input_tokens c.output_tokens;
  }

  module _ (measure : Call → ℕ) (same : (c : Call) → column (row_of c) ≡ measure c) where
    column-record_usage :
        (table : UsageTable) (c : Call) (model_id : ℕ) (month : String)
        → recorded_in column
            (record_usage table c.model c.month c.input_tokens c.output_tokens)
            model_id
            month
          ≡ recorded_in column table model_id month
            + (if c.model.id == model_id && str_eq c.month month then measure c else 0)
    unfolding record_usage
    column-record_usage table c model_id month =
        column-upsert_usage table (row_of c) model_id month
        ∙ ap
            (λ n.
              recorded_in column table model_id month
              + (if c.model.id == model_id && str_eq c.month month then n else 0))
            (same c)

    column-record_all :
        (table : UsageTable) (calls : List Call) (model_id : ℕ) (month : String)
        → recorded_in column (record_all table calls) model_id month
          ≡ recorded_in column table model_id month + total_of measure model_id month calls
    column-record_all table [] model_id month = omega arith
    column-record_all table (c ∷ calls) model_id month = omega (
      arith,
      column-record_all (record_usage table c.model c.month c.input_tokens c.output_tokens) calls
          model_id month,
      column-record_usage table c model_id month,
    )

-- After any calls, in any order, each column of a model's row of a month, the input tokens, the output
-- tokens and the cost, has grown by what its calls of that month sum to, and by nothing else: other
-- models and months do not count.
pub recorded-record_all :
    (table : UsageTable) (calls : List Call) (model_id : ℕ) (month : String)
    → let after = record_all table calls in
      (recorded_in (λ u. u.total_input_tokens) after model_id month
        ≡ recorded_in (λ u. u.total_input_tokens) table model_id month
          + total_of (λ c. c.input_tokens) model_id month calls)
      × ((recorded_in (λ u. u.total_output_tokens) after model_id month
            ≡ recorded_in (λ u. u.total_output_tokens) table model_id month
              + total_of (λ c. c.output_tokens) model_id month calls)
          × (recorded after model_id month
              ≡ recorded table model_id month + spent model_id month calls))
recorded-record_all table calls model_id month = (
  column-record_all (λ u. u.total_input_tokens) (λ u new. refl) (λ c. c.input_tokens) (λ c. refl)
      table calls model_id month,
  (
    column-record_all (λ u. u.total_output_tokens) (λ u new. refl) (λ c. c.output_tokens)
        (λ c. refl) table calls model_id month,
    cost-record_all table calls model_id month,
  ),
)

abbrev is_some : Option TokenUsage → Bool
is_some none = false
is_some (some _) = true

-- Whether a model was called in a month.
abbrev pub called : ℕ → String → List Call → Bool
called model_id month = any (λ c. c.model.id == model_id && str_eq c.month month)

present-upsert_usage :
    (table : UsageTable) (new : TokenUsage) (model_id : ℕ) (month : String)
    → is_some (get_current_month_usage (upsert_usage table new) model_id month)
      ≡ (is_some (get_current_month_usage table model_id month) || is_usage_of model_id month new)
unfolding get_current_month_usage upsert_usage
present-upsert_usage [] new model_id month = ground arith
present-upsert_usage (u ∷ table) new model_id month = ground (
  arith,
  present-upsert_usage table new model_id month,
  eq_iff u.month new.month,
  eq_iff u.month month,
  eq_iff new.month month,
)

present-record_usage :
    (table : UsageTable) (c : Call) (model_id : ℕ) (month : String)
    → is_some (
        get_current_month_usage
          (record_usage table c.model c.month c.input_tokens c.output_tokens)
          model_id
          month)
      ≡ (is_some (get_current_month_usage table model_id month)
          || (c.model.id == model_id && str_eq c.month month))
unfolding record_usage
present-record_usage table c model_id month = present-upsert_usage table _ model_id month

or_assoc : (a b c : Bool) → ((a || b) || c) ≡ (a || (b || c))
or_assoc a b c = ground arith

present-record_all :
    (table : UsageTable) (calls : List Call) (model_id : ℕ) (month : String)
    → is_some (get_current_month_usage (record_all table calls) model_id month)
      ≡ (is_some (get_current_month_usage table model_id month) || called model_id month calls)
present-record_all table [] model_id month = ground arith
present-record_all table (c ∷ calls) model_id month =
    present-record_all (record_usage table c.model c.month c.input_tokens c.output_tokens) calls
      model_id month
    ∙ ap (λ b. b || called model_id month calls) (present-record_usage table c model_id month)
    ∙ or_assoc _ _ (called model_id month calls)

-- The limit that a model is held to: its own, and the platform's 10 USD while it has no key of its own.
abbrev pub monthly_limit : RagModel → ℕ
monthly_limit model =
    if truthy model.custom_anthropic_key
    then model.budget_limit
    else min model.budget_limit platform_budget_cap

check_of :
    (o : Option TokenUsage) (n limit : ℕ) (b : Bool)
    → cost_of o ≡ n
    → is_some o ≡ b
    → (elim o [ none ↦ true | some usage ↦ ltb usage.estimated_cost limit ])
      ≡ (if b then ltb n limit else true)
check_of none n limit b e f = ground arith
check_of (some u) n limit b e f = ground arith

-- After any calls on an empty usage table, a model is within budget exactly when it was not called in
-- the month, or its calls of the month cost less than its limit.
pub check_budget-eq :
    (calls : List Call) (model : RagModel) (month : String)
    → check_budget (record_all [] calls) model month ≡ (
        if called model.id month calls
        then ltb (spent model.id month calls) (monthly_limit model)
        else true)
unfolding check_budget
check_budget-eq calls model month =
    check_of (get_current_month_usage (record_all [] calls) model.id month)
      (spent model.id month calls) (monthly_limit model) (called model.id month calls)
      (cost-record_all [] calls model.id month ∙ (unfold get_current_month_usage in omega arith))
      (present-record_all [] calls model.id month ∙ (unfold get_current_month_usage in refl))
