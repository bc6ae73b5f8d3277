-- ===== src/Budget.antt =====
-- app/services/budget.py: prices, monthly usage and the budget check. Amounts are in units of 10^-8
-- USD: a price of p USD for a million tokens is 100 p units for a token, and a total of such products
-- is the exact value of what the code computes in floating point.
pub mod Laws
mod Tests
use ragr.Prelude.{
  ltb, leb, ◌==◌, if◌then◌else◌, ltb→lt, leb→le, ==_iff, Bool-cases, Option-cases, length, take,
  drop, get_elem?, filter, get_last?, get_last?-concat, any, all, length-append, length-take,
  length-drop, take-append-drop, filter-append, length-filter-le, length-map, All, All-append,
  All-filter, All-take, ℕ, zero, suc, ◌+◌, ◌-◌, ◌*◌, ◌/◌, ◌%◌, ◌^◌, ◌≤◌, ◌<◌, min, max, String, ◌≡◌,
  refl, sym, ap, ap₂, ◌∙◌, fun_ext, subst, ◌≢◌, ◌↔◌, ◌⊎◌, inl, inr, Bool, true, false, ◌&&◌, ◌||◌,
  not, Option, none, some, List, [], ◌∷◌, ◌++◌, map, append_assoc, append-nil, map-append, arith,
  str_eq, eq_iff, eq_refl,
}
use ragr.Models.{RagModel, truthy}
use ragr.Models.Chat.{TokenUsage}

-- d.get(key, default)
abbrev pub price_of {ℓ} : {A : Type ℓ} → List (String × A) → A → String → A
price_of [] default name = default
price_of ((k, p) ∷ prices) default name = if str_eq k name then p else price_of prices default name

pub record Pricing : Type 0 where
  pub input : ℕ
  pub output : ℕ

abbrev usd_per_million : ℕ → ℕ → Pricing
usd_per_million input output = record { input = 100 * input; output = 100 * output }

abbrev model_pricing : List (String × Pricing)
model_pricing =
    ("claude-haiku-4-5", usd_per_million 1 5)
    ∷ ("claude-sonnet-5", usd_per_million 2 10)
    ∷ ("claude-sonnet-4-6", usd_per_million 3 15)
    ∷ ("claude-opus-4-6", usd_per_million 5 25)
    ∷ ("claude-opus-4-7", usd_per_million 5 25)
    ∷ ("claude-opus-4-8", usd_per_million 5 25)
    ∷ ("claude-opus-5", usd_per_million 5 25)
    ∷ []

abbrev default_pricing : Pricing
default_pricing = usd_per_million 3 15

abbrev embedding_pricing : List (String × ℕ)
embedding_pricing =
    ("voyage-4-lite", 2) ∷ ("voyage-3-lite", 2) ∷ ("voyage-3", 6) ∷ ("voyage-code-3", 18) ∷ []

abbrev rerank_pricing : List (String × ℕ)
rerank_pricing = ("rerank-2", 5) ∷ ("rerank-2-lite", 2) ∷ ("rerank-2.5-lite", 2) ∷ []

unfoldable pub estimate_embedding_cost : String → ℕ → ℕ
estimate_embedding_cost model_name total_tokens =
    total_tokens * price_of embedding_pricing 2 model_name

unfoldable pub estimate_rerank_cost : String → ℕ → ℕ
estimate_rerank_cost model_name total_tokens = total_tokens * price_of rerank_pricing 5 model_name

unfoldable pub estimate_cost : String → ℕ → ℕ → ℕ
estimate_cost model_name input_tokens output_tokens =
    let pricing = price_of model_pricing default_pricing model_name in
    input_tokens * pricing.input + output_tokens * pricing.output

-- the rows of `token_usage`
abbrev pub UsageTable : Type 0
UsageTable = List TokenUsage

abbrev pub is_usage_of : ℕ → String → TokenUsage → Bool
is_usage_of model_id month u = u.model_id == model_id && str_eq u.month month

-- `month` is the current month
unfoldable pub get_current_month_usage : UsageTable → ℕ → String → Option TokenUsage
get_current_month_usage [] model_id month = none
get_current_month_usage (u ∷ table) model_id month =
    if is_usage_of model_id month u then some u else get_current_month_usage table model_id month

abbrev add_usage : TokenUsage → TokenUsage → TokenUsage
add_usage old excluded = record old {
  total_input_tokens = old.total_input_tokens + excluded.total_input_tokens;
  total_output_tokens = old.total_output_tokens + excluded.total_output_tokens;
  estimated_cost = old.estimated_cost + excluded.estimated_cost;
}

-- INSERT ... ON CONFLICT (model_id, month) DO UPDATE
unfoldable pub upsert_usage : UsageTable → TokenUsage → UsageTable
upsert_usage [] new = new ∷ []
upsert_usage (u ∷ table) new =
    if is_usage_of new.model_id new.month u
    then add_usage u new ∷ table
    else u ∷ upsert_usage table new

unfoldable pub record_usage : UsageTable → RagModel → String → ℕ → ℕ → UsageTable
unfolding estimate_cost upsert_usage
record_usage table model month input_tokens output_tokens = upsert_usage table (record {
  model_id = model.id;
  month = month;
  total_input_tokens = input_tokens;
  total_output_tokens = output_tokens;
  estimated_cost = estimate_cost model.generation_model input_tokens output_tokens;
})

-- 10 USD
abbrev pub platform_budget_cap : ℕ
platform_budget_cap = 1_000_000_000

unfoldable pub check_budget : UsageTable → RagModel → String → Bool
check_budget table model month = elim (get_current_month_usage table model.id month) [
  | none ↦ true
  | some usage ↦
      let limit =
        if truthy model.custom_anthropic_key
        then model.budget_limit
        else min model.budget_limit platform_budget_cap in
      ltb usage.estimated_cost limit
]
