-- ===== src/Ingest/Db.antt =====
-- The tables that ingestion writes, and the statements that the services run on them. The constraint
-- `uq_model_source` gives a model and an identifier at most one source row.
use ragr.Prelude.{
  ◌==◌, if◌then◌else◌, filter, ℕ, suc, String, ◌≡◌, ap, ◌∙◌, Bool, ◌&&◌, not, Option, none, some,
  List, [], ◌∷◌, arith, str_eq, eq_iff,
}
use ragr.Models.{ContentChunk}
use ragr.Models.Source.{IngestionSource}
use ragr.Models.Job.{IngestionJob}

pub record Database : Type 0 where
  pub sources : List IngestionSource
  pub chunks : List ContentChunk
  pub jobs : List IngestionJob
  pub next_id : ℕ

abbrev pub is_source : ℕ → String → IngestionSource → Bool
is_source model_id ident s = s.model_id == model_id && str_eq s.source_identifier ident

abbrev pub is_chunk_of : ℕ → String → ContentChunk → Bool
is_chunk_of model_id ident c = c.model_id == model_id && str_eq c.source_identifier ident

find : List IngestionSource → ℕ → String → Option IngestionSource
find [] model_id ident = none
find (s ∷ sources) model_id ident =
    if is_source model_id ident s then some s else find sources model_id ident

-- select(IngestionSource).where(model_id, source_identifier)
unfoldable pub find_source : Database → ℕ → String → Option IngestionSource
unfolding find
find_source db model_id ident = find db.sources model_id ident

modify :
    List IngestionSource → ℕ → String → (IngestionSource → IngestionSource) → List IngestionSource
modify [] model_id ident f = []
modify (s ∷ sources) model_id ident f =
    if is_source model_id ident s then f s ∷ sources else s ∷ modify sources model_id ident f

-- the assignment of columns of a loaded row, and the commit
unfoldable pub modify_source :
    Database → ℕ → String → (IngestionSource → IngestionSource) → Database
unfolding modify
modify_source db model_id ident f = record db { sources = modify db.sources model_id ident f }

upsert :
    List IngestionSource
    → IngestionSource
    → (IngestionSource → IngestionSource → IngestionSource)
    → List IngestionSource
upsert [] new f = new ∷ []
upsert (s ∷ sources) new f =
    if is_source new.model_id new.source_identifier s
    then f s new ∷ sources
    else s ∷ upsert sources new f

-- INSERT ... ON CONFLICT ON CONSTRAINT uq_model_source DO UPDATE
unfoldable pub upsert_source :
    Database → IngestionSource → (IngestionSource → IngestionSource → IngestionSource) → Database
unfolding upsert
upsert_source db new f = record db { sources = upsert db.sources new f; next_id = suc db.next_id }

-- DELETE FROM content_chunks WHERE model_id, source_identifier
unfoldable pub delete_chunks : Database → ℕ → String → Database
delete_chunks db model_id ident = record db {
  chunks = filter (λ c. not (is_chunk_of model_id ident c)) db.chunks;
}

-- An update of a row that leaves its key alone.
abbrev pub KeepsKey : (IngestionSource → IngestionSource) → Type 0
KeepsKey f =
    (s : IngestionSource)
    → ((f s).model_id ≡ s.model_id) × ((f s).source_identifier ≡ s.source_identifier)

abbrev pub map_option {ℓ} : {A B : Type ℓ} → (A → B) → Option A → Option B
map_option f none = none
map_option f (some a) = some (f a)

find-modify :
    (sources : List IngestionSource) (m n : ℕ) (i j : String)
    (f : IngestionSource → IngestionSource)
    → KeepsKey f
    → find (modify sources m i f) n j
      ≡ (if m == n && str_eq i j then map_option f (find sources n j) else find sources n j)
unfolding find modify
find-modify [] m n i j f k = ground arith
find-modify (s ∷ sources) m n i j f k = ground (
  arith,
  find-modify sources m n i j f k,
  k s,
  eq_iff s.source_identifier i,
  eq_iff s.source_identifier j,
  eq_iff i j,
  eq_iff (f s).source_identifier j,
)

pub find_source-modify_source :
    (db : Database) (m n : ℕ) (i j : String) (f : IngestionSource → IngestionSource)
    → KeepsKey f
    → find_source (modify_source db m i f) n j
      ≡ (if m == n && str_eq i j then map_option f (find_source db n j) else find_source db n j)
unfolding find_source modify_source
find_source-modify_source db m n i j f k = find-modify db.sources m n i j f k

-- The row that an upsert leaves under its key.
abbrev pub written :
    (IngestionSource → IngestionSource → IngestionSource)
    → IngestionSource
    → Option IngestionSource
    → IngestionSource
written f new none = new
written f new (some s) = f s new

find-upsert :
    (sources : List IngestionSource) (new : IngestionSource)
    (f : IngestionSource → IngestionSource → IngestionSource) (n : ℕ) (j : String)
    → KeepsKey (λ s. f s new)
    → find (upsert sources new f) n j ≡ (
        if new.model_id == n && str_eq new.source_identifier j
        then some (written f new (find sources n j))
        else find sources n j)
unfolding find upsert
find-upsert [] new f n j k = ground arith
find-upsert (s ∷ sources) new f n j k = ground (
  arith,
  find-upsert sources new f n j k,
  k s,
  eq_iff s.source_identifier new.source_identifier,
  eq_iff s.source_identifier j,
  eq_iff new.source_identifier j,
  eq_iff (f s new).source_identifier j,
)

pub find_source-upsert_source :
    (db : Database) (new : IngestionSource)
    (f : IngestionSource → IngestionSource → IngestionSource) (n : ℕ) (j : String)
    → KeepsKey (λ s. f s new)
    → find_source (upsert_source db new f) n j ≡ (
        if new.model_id == n && str_eq new.source_identifier j
        then some (written f new (find_source db n j))
        else find_source db n j)
unfolding find_source upsert_source
find_source-upsert_source db new f n j k = find-upsert db.sources new f n j k

find-filter :
    (sources : List IngestionSource) (m n : ℕ) (i j : String)
    → find (filter (λ s. not (is_source m i s)) sources) n j
      ≡ (if m == n && str_eq i j then none else find sources n j)
unfolding find
find-filter [] m n i j = ground arith
find-filter (s ∷ sources) m n i j = ground (
  arith,
  find-filter sources m n i j,
  eq_iff s.source_identifier i,
  eq_iff s.source_identifier j,
  eq_iff i j,
)

pub find_source-filter :
    (db db' : Database) (m n : ℕ) (i j : String)
    → db'.sources ≡ filter (λ s. not (is_source m i s)) db.sources
    → find_source db' n j ≡ (if m == n && str_eq i j then none else find_source db n j)
unfolding find_source
find_source-filter db db' m n i j e = ap (λ l. find l n j) e ∙ find-filter db.sources m n i j
