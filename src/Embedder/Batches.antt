-- ===== src/Embedder/Batches.antt =====
-- Batching cannot be seen in the result.
use ragr.Prelude.{
  leb, Bool-cases, length, take, drop, length-take, length-drop, take-append-drop, ℕ, zero, suc,
  ◌+◌, ◌≤◌, String, ◌≡◌, refl, sym, ap, ap₂, ◌∙◌, inl, inr, true, Option, some, List, [], ◌∷◌, ◌++◌,
  map, append_assoc, append-nil, map-append, arith,
}
use ragr.Text.{Text}
use ragr.Models.{Embedding}
use ragr.Embedder.{EmbedResult, Client, no_texts, plus, embed_batches, embed_texts}

-- The vectors and the tokens of some texts, each on its own.
abbrev pub total : (Text → ℕ) → List Text → ℕ
total cost [] = 0
total cost (t ∷ ts) = cost t + total cost ts

abbrev pub separately : (Text → Embedding) → (Text → ℕ) → List Text → EmbedResult
separately vector cost texts = record {
  embeddings = map vector texts;
  total_tokens = total cost texts;
}

total-append :
    (cost : Text → ℕ) (ts us : List Text) → total cost (ts ++ us) ≡ total cost ts + total cost us
total-append cost [] us = omega arith
total-append cost (t ∷ ts) us = omega (arith, total-append cost ts us)

no_texts-eq : (ts : List Text) → no_texts ts ≡ true → ts ≡ []
no_texts-eq [] h = refl
no_texts-eq (t ∷ ts) h = ground arith

module _ (vector : Text → Embedding) (cost : Text → ℕ) (embed : List Text → Option EmbedResult)
    (batch_size : ℕ) where
  -- The service embeds each text of a request that is not too long, in order.
  abbrev Embeds : Type 0
  Embeds = (ts : List Text) → length ts ≤ batch_size → embed ts ≡ some (separately vector cost ts)

  separately-plus :
      (ts us : List Text)
      → plus (separately vector cost ts) (separately vector cost us)
        ≡ separately vector cost (ts ++ us)
  separately-plus ts us =
      ap₂ (λ e n. record { embeddings = e; total_tokens = n }) (sym (map-append vector ts us))
        (sym (total-append cost ts us))

  embed_batches_lem :
      Embeds
      → 1 ≤ batch_size
      → (fuel : ℕ) (before texts : List Text) → length texts ≤ fuel
      → embed_batches fuel embed batch_size texts (separately vector cost before)
        ≡ some (separately vector cost (before ++ texts))
  unfolding embed_batches
  embed_batches_lem h one zero before [] fuelled =
      ap (λ ts. some (separately vector cost ts)) (sym (append-nil before))
  embed_batches_lem h one zero before (t ∷ texts) fuelled = absurd (omega arith)
  embed_batches_lem h one (suc fuel) before [] fuelled =
      ap (λ ts. some (separately vector cost ts)) (sym (append-nil before))
  embed_batches_lem h one (suc fuel) before (t ∷ texts) fuelled =
      let ts = t ∷ texts in
      let batch = take batch_size ts in
      let rest = drop batch_size ts in
      let ih =
        embed_batches_lem h one fuel (before ++ batch) rest
          (omega (arith, length-drop batch_size ts)) in
      rw (h batch (omega (arith, length-take batch_size ts)), embed_batches)
        (ap (λ done. embed_batches fuel embed batch_size rest done) (separately-plus before batch)
          ∙ ih
          ∙ ap (λ us. some (separately vector cost us))
              (append_assoc before batch rest
                ∙ ap (λ us. before ++ us) (take-append-drop batch_size ts)))

-- If the service embeds each text of a request of up to `batch_size` texts on its own, in order, then
-- so does `embed_texts`, for any number of texts: a vector for each, in order, and all the tokens.
pub embed_texts-eq :
    (client : Client) (vector : Text → Embedding) (cost : Text → ℕ) (texts : List Text)
    (model : String) (batch_size : ℕ) (key : Option String)
    → 1 ≤ batch_size
    → ((ts : List Text)
        → length ts ≤ batch_size
        → client key ts model ≡ some (separately vector cost ts))
    → embed_texts client texts model batch_size key ≡ some (separately vector cost texts)
unfolding embed_texts
embed_texts-eq client vector cost texts model batch_size key one h =
    elim (Bool-cases (no_texts texts)) [
      | inl nothing ↦ rw (no_texts-eq texts nothing) refl
      | inr something ↦ rw something (elim (Bool-cases (leb (length texts) batch_size)) [
        | inl few ↦ rw few (h texts (ground arith))
        | inr many ↦ rw many (
            embed_batches_lem vector cost (λ ts. client key ts model) batch_size h one
              (length texts) [] texts (omega arith))
      ])
    ]
