-- ===== src/Embedder/Tests.antt =====
-- Runs of the embedder, with a client that refuses more than two texts.
use ragr.Prelude.{leb, if◌then◌else◌, length, ℕ, ◌≡◌, refl, none, some, List, [], ◌∷◌, arith}
use ragr.Text.{Text}
use ragr.Models.{Embedding}
use ragr.Embedder.{Client, embed_texts}
use ragr.Embedder.Batches.{separately, embed_texts-eq}

abbrev vector : Text → Embedding
vector t = t

abbrev cost : Text → ℕ
cost t = length t

abbrev client : Client
client key ts model = if leb (length ts) 2 then some (separately vector cost ts) else none

abbrev five : List Text
five = (1 ∷ []) ∷ (2 ∷ []) ∷ (3 ∷ 3 ∷ []) ∷ (4 ∷ []) ∷ (5 ∷ []) ∷ []

in_batches : embed_texts client five "voyage-4-lite" 2 none ≡ some (separately vector cost five)
unfolding embed_texts
in_batches = refl

-- A batch that fails ends the loop.
too_large : embed_texts client five "voyage-4-lite" 3 none ≡ none
unfolding embed_texts
too_large = refl

embed_texts-eq_example :
    embed_texts client five "voyage-4-lite" 2 none ≡ some (separately vector cost five)
embed_texts-eq_example =
    embed_texts-eq client vector cost five "voyage-4-lite" 2 none (omega arith)
      (λ ts h. ground arith)
