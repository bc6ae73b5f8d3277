-- ===== src/Embedder.antt =====
-- app/services/embedder.py: texts are embedded in batches. The Voyage client is a parameter: `none` is
-- an exception.
pub mod Batches
mod Tests
use ragr.Prelude.{
  ltb, leb, ◌==◌, if◌then◌else◌, ltb→lt, leb→le, ==_iff, Bool-cases, Option-cases, length, take,
  drop, get_elem?, filter, get_last?, get_last?-concat, any, all, length-append, length-take,
  length-drop, take-append-drop, filter-append, length-filter-le, length-map, All, All-append,
  All-filter, All-take, ℕ, zero, suc, ◌+◌, ◌-◌, ◌*◌, ◌/◌, ◌%◌, ◌^◌, ◌≤◌, ◌<◌, min, max, String, ◌≡◌,
  refl, sym, ap, ap₂, ◌∙◌, fun_ext, subst, ◌≢◌, ◌↔◌, ◌⊎◌, inl, inr, Bool, true, false, ◌&&◌, ◌||◌,
  not, Option, none, some, List, [], ◌∷◌, ◌++◌, map, append_assoc, append-nil, map-append, arith,
  str_eq, eq_iff, eq_refl,
}
use ragr.Text.{Text}
use ragr.Models.{Embedding}

pub record EmbedResult : Type 0 where
  pub embeddings : List Embedding
  pub total_tokens : ℕ

-- `client.embed(texts, model=…)` of the client for an API key
abbrev pub Client : Type 0
Client = Option String → List Text → String → Option EmbedResult

abbrev pub no_texts : List Text → Bool
no_texts [] = true
no_texts (_ ∷ _) = false

abbrev plus : EmbedResult → EmbedResult → EmbedResult
plus a b = record {
  embeddings = a.embeddings ++ b.embeddings;
  total_tokens = a.total_tokens + b.total_tokens;
}

-- The loop over the batches; the fuel is a bound on their number.
unfoldable pub embed_batches :
    ℕ → (List Text → Option EmbedResult) → ℕ → List Text → EmbedResult → Option EmbedResult
embed_batches zero embed batch_size texts done = some done
embed_batches (suc fuel) embed batch_size texts done =
    let result = embed (take batch_size texts) in
    let next = λ (r : EmbedResult).
      embed_batches fuel embed batch_size (drop batch_size texts) (plus done r) in
    if no_texts texts then some done else elim result [ none ↦ none | some r ↦ next r ]

unfoldable pub embed_texts : Client → List Text → String → ℕ → Option String → Option EmbedResult
unfolding embed_batches
embed_texts client texts model batch_size voyage_api_key =
    let embed = λ (ts : List Text). client voyage_api_key ts model in
    let none_yet : EmbedResult = record { embeddings = []; total_tokens = 0 } in
    if no_texts texts
    then some none_yet
    else if leb (length texts) batch_size
    then embed texts
    else embed_batches (length texts) embed batch_size texts none_yet

-- the default of `batch_size`
abbrev pub default_batch_size : ℕ
default_batch_size = 128
