-- ===== src/Sources/Upload.antt =====
-- app/api/sources.py: the routes that queue files and uploaded objects. The extraction of text, the
-- store's signed URLs and uuid4 are parameters. An HTTPException before the commit leaves the tables as
-- they were.
use ragr.Prelude.{
  ltb, if◌then◌else◌, length, any, ℕ, ◌*◌, String, Bool, false, ◌||◌, not, Option, none, some, List,
  [], ◌∷◌, map,
}
use ragr.Text.{Text, codes, split, starts_with, text_eq}
use ragr.Str.{◌+s◌, decimal_str}
use ragr.Models.{RagModel, truthy}
use ragr.Ingest.Db.{Database}
use ragr.Ingest.Queueing.{queue_file, queue_r2_file}
use ragr.Dependencies.{Reply, allow, http_exception, exception}
use ragr.Sources.{Api, limited}
use ragr.Sources.Submit.{CreateSourceResponse, pending_response}

pub record UploadFile : Type 0 where
  pub filename : Option String
  pub size : Option ℕ
  pub content : List ℕ

-- A file that has been read: its name, its text and its content type.
pub record Prepared : Type 0 where
  pub filename : String
  pub text : Text
  pub content_type : String

-- `extract_text`, or the message of its ExtractionError
pub data Extracted : Type 0 where
  extracted : Text → String → Extracted
  extraction_error : String → Extracted

abbrev pub name_of : Option String → String
name_of none = ""
name_of (some filename) = filename

abbrev exceeds : Option ℕ → ℕ → Bool
exceeds none max_bytes = false
exceeds (some size) max_bytes = ltb max_bytes size

abbrev prepare_extracted : String → Extracted → Reply Prepared
prepare_extracted filename (extraction_error message) = http_exception 422 message
prepare_extracted filename (extracted text content_type) =
    allow (record { filename = filename; text = text; content_type = content_type })

abbrev cons_prepared : Reply Prepared → Reply (List Prepared) → Reply (List Prepared)
cons_prepared (http_exception code detail) rest = http_exception code detail
cons_prepared exception rest = exception
cons_prepared (allow file) (http_exception code detail) = http_exception code detail
cons_prepared (allow file) exception = exception
cons_prepared (allow file) (allow files) = allow (file ∷ files)

unfoldable pub queue_files : Database → ℕ → ℕ → List Prepared → Database
queue_files db now model_id [] = db
queue_files db now model_id (file ∷ files) =
    queue_files (queue_file db now model_id file.filename file.content_type file.text "" none) now
      model_id files

abbrev queue_prepared :
    Api → ℕ → ℕ → Reply (List Prepared) → Api × Reply (List CreateSourceResponse)
queue_prepared api now model_id (http_exception code detail) = (api, http_exception code detail)
queue_prepared api now model_id exception = (api, exception)
queue_prepared api now model_id (allow files) = (
  record api { db = queue_files api.db now model_id files },
  allow (
      map (λ (f : Prepared). pending_response f.filename ("Ingestion started for " +s f.filename))
        files),
)

module _ (max_upload_size_mb max_upload_files : ℕ)
    (extract_text : String → List ℕ → Extracted) where
  abbrev max_bytes : ℕ
  max_bytes = max_upload_size_mb * 1024 * 1024

  unfoldable pub prepare_file : UploadFile → Reply Prepared
  prepare_file file =
      let filename = name_of file.filename in
      if not (truthy file.filename)
      then http_exception 400 "Filename is required for all files"
      else if exceeds file.size max_bytes || ltb max_bytes (length file.content)
      then http_exception 422 (
          "File '"
          +s (filename +s ("' exceeds " +s (decimal_str max_upload_size_mb +s "MB limit"))))
      else prepare_extracted filename (extract_text filename file.content)

  -- the loop over the files, up to its first error
  unfoldable pub prepare_files : List UploadFile → Reply (List Prepared)
  unfolding prepare_file
  prepare_files [] = allow []
  prepare_files (file ∷ files) = cons_prepared (prepare_file file) (prepare_files files)

  unfoldable pub upload_source :
      Api → ℕ → RagModel → List UploadFile → Api × Reply (List CreateSourceResponse)
  unfolding limited prepare_files queue_files
  upload_source api now model files = limited api now model.id (λ a.
      if ltb max_upload_files (length files)
      then (
        a,
        http_exception 422
            ("Too many files: max " +s (decimal_str max_upload_files +s " per request")),
      )
      else queue_prepared a now model.id (prepare_files files))

pub record PresignedFileRequest : Type 0 where
  pub filename : String
  pub content_type : String

pub record PresignedFileInfo : Type 0 where
  pub filename : String
  pub object_key : String
  pub upload_url : String
  pub content_type : String

-- uploads/{model.id}/
abbrev pub upload_prefix : ℕ → String
upload_prefix model_id = "uploads/" +s (decimal_str model_id +s "/")

-- The arguments are `r2_is_configured()`, the upload's id and the signing of a key and a content type.
unfoldable pub presign_upload :
    Bool
    → String
    → (String → String → String)
    → RagModel
    → List PresignedFileRequest
    → Reply (List PresignedFileInfo)
presign_upload configured upload_id sign model files =
    if configured
    then allow (
        map
          (λ (f : PresignedFileRequest).
            let key = upload_prefix model.id +s (upload_id +s ("/" +s f.filename)) in
            record {
              filename = f.filename;
              object_key = key;
              upload_url = sign key f.content_type;
              content_type = f.content_type;
            })
          files)
    else http_exception 501 "R2 storage is not configured"

pub record ConfirmFileInfo : Type 0 where
  pub filename : String
  pub object_key : String

-- ".." in object_key.split("/")
abbrev pub climbs : String → Bool
climbs key = any (λ t. text_eq t (codes "..")) (split b'/' (codes key))

-- object_key.startswith(f"uploads/{model.id}/")
abbrev pub is_upload_of : ℕ → String → Bool
is_upload_of model_id key = starts_with (codes (upload_prefix model_id)) (codes key)

-- the loop over the files, up to its first error
unfoldable pub confirm_files : Database → ℕ → ℕ → List ConfirmFileInfo → Reply Database
confirm_files db now model_id [] = allow db
confirm_files db now model_id (f ∷ files) =
    let rest =
      confirm_files (queue_r2_file db now model_id f.filename f.object_key) now model_id files in
    if climbs f.object_key
    then http_exception 422 ("Invalid object key: " +s f.object_key)
    else if not (is_upload_of model_id f.object_key)
    then http_exception 403 ("Object key does not belong to this model: " +s f.object_key)
    else rest

abbrev pub commit_files :
    Database → List ConfirmFileInfo → Reply Database → Database × Reply (List CreateSourceResponse)
commit_files db files (http_exception code detail) = (db, http_exception code detail)
commit_files db files exception = (db, exception)
commit_files db files (allow db') = (
  db',
  allow (
      map
        (λ (f : ConfirmFileInfo).
          pending_response f.filename ("Ingestion started for " +s f.filename))
        files),
)

unfoldable pub confirm_upload :
    Bool
    → Database
    → ℕ
    → RagModel
    → List ConfirmFileInfo
    → Database × Reply (List CreateSourceResponse)
unfolding confirm_files split
confirm_upload configured db now model files =
    if configured
    then commit_files db files (confirm_files db now model.id files)
    else (db, http_exception 501 "R2 storage is not configured")
