-- ===== src/Sources/Tests.antt =====
-- Runs of the routes on a model's sources.
use ragr.Prelude.{String, ◌≡◌, refl, true, false, none, some, List, [], ◌∷◌}
use ragr.Text.{Text, codes}
use ragr.Models.{ContentChunk}
use ragr.Models.Source.{IngestionSource, complete}
use ragr.Embedder.{Client}
use ragr.Samples.{model}
use ragr.RateLimit.{init}
use ragr.UrlValidation.{ParsedUrl, Address, Resolver, addresses}
use ragr.Ingest.Db.{Database, find_source}
use ragr.Ingest.Replace.{IsOwned, stored}
use ragr.Ingest.Others.{SameAt}
use ragr.Dependencies.{allow}
use ragr.Sources.{Api, delete_source, UpsertSourceRequest, upsert_source}
use ragr.Sources.Submit.{CreateSourceRequest, create_source}
use ragr.Sources.Upload.{ConfirmFileInfo, confirm_upload}
use ragr.Sources.Reingest.{reingest_all_sources}
use ragr.Sources.Deleted.{delete_source-removes, upsert_source-delete_source}
use ragr.Sources.Submitted.{
  IsCreated, create_source-IsCreated, IsConfirmed, confirm_upload-IsConfirmed,
}
use ragr.Sources.Reingested.{IsReingested, reingest_all_sources-IsReingested}

abbrev intro : IngestionSource
intro = record {
  id = 1;
  model_id = 1;
  source_identifier = "intro.md";
  content_hash = "old";
  chunk_count = 1;
  source_url = "https://ragr.dev";
  content_type = "html";
  status = complete;
  embedding_cost = 0;
  raw_content = none;
  status_detail = none;
}

abbrev chunk : ContentChunk
chunk = record {
  id = 2;
  model_id = 1;
  content = codes "Old";
  embedding = [];
  source_url = "";
  source_identifier = "intro.md";
  content_type = "markdown";
  metadata = record { heading_path = []; start_offset = 0; end_offset = 3 };
  position = 0;
}

abbrev db : Database
db = record {
  sources = intro ∷ record intro { id = 4; source_identifier = "note.md"; source_url = "" } ∷ [];
  chunks = chunk ∷ [];
  jobs = [];
  next_id = 5;
}

abbrev api : Api
api = record { db = db; limiter = init 3 60 100 }

db-IsOwned : IsOwned db
unfolding find_source
db-IsOwned = (refl, tt)

abbrev sha256 : Text → String
sha256 _ = "digest"

abbrev client : Client
client _ texts _ = some (record { embeddings = texts; total_tokens = 1 })

abbrev urlparse : String → ParsedUrl
urlparse url = record {
  scheme = "https";
  netloc = "ragr.dev";
  path = url;
  hostname = some "ragr.dev";
}

abbrev address : Address
address = record {
  is_private = false;
  is_loopback = false;
  is_link_local = false;
  is_reserved = false;
  is_multicast = false;
  is_unspecified = false;
}

abbrev resolver : Resolver
resolver _ = addresses (address ∷ [])

abbrev unquote : Text → Text
unquote t = t

delete_source-removes_example :
    let done = delete_source db model "intro.md" in
    (done.1 ≡ allow tt)
    × ((find_source done.0 1 "intro.md" ≡ none)
        × ((stored done.0 1 "intro.md" ≡ []) × (IsOwned done.0 × (done.0.jobs ≡ []))))
unfolding find_source
delete_source-removes_example = delete_source-removes db model "intro.md" db-IsOwned 1 "intro.md"

abbrev page : UpsertSourceRequest
page = record { content = codes "A new page."; content_type = "text"; source_url = "" }

new_source : find_source db 1 "new.md" ≡ none
unfolding find_source
new_source = refl

upsert_source-delete_source_example :
    let put = upsert_source sha256 client api 10 model "new.md" page in
    SameAt db (delete_source put.0.db model "new.md").0 1 "intro.md"
upsert_source-delete_source_example =
    upsert_source-delete_source sha256 client api 10 model "new.md" page db-IsOwned new_source 1
      "intro.md"

abbrev two_urls : CreateSourceRequest
two_urls = record {
  source_identifier = none;
  url = none;
  urls = some ("https://ragr.dev/a" ∷ "https://ragr.dev/b" ∷ []);
}

create_source-IsCreated_example :
    let done = create_source urlparse unquote resolver api 10 model two_urls in
    IsCreated urlparse unquote resolver api 10 model two_urls done.0.db done.1
create_source-IsCreated_example =
    create_source-IsCreated urlparse unquote resolver api 10 model two_urls

abbrev uploads : List ConfirmFileInfo
uploads = record { filename = "a.pdf"; object_key = "uploads/1/u/a.pdf" } ∷ []

confirm_upload-IsConfirmed_example :
    let done = confirm_upload true db 10 model uploads in
    IsConfirmed true db 1 uploads done.0 done.1
confirm_upload-IsConfirmed_example = confirm_upload-IsConfirmed true db 10 model uploads

reingest_all_sources-IsReingested_example :
    let done = reingest_all_sources api 10 model in IsReingested api 10 model done.0.db done.1
reingest_all_sources-IsReingested_example = reingest_all_sources-IsReingested api 10 model
