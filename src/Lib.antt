-- ===== src/Lib.antt =====
-- ragr: retrieval-augmented answers over a model's own documents. This library is a model of the
-- backend's core in `app/`, with the theorems that make it correct.
--
-- How the parts work together. A source (a page, a file, a crawl) is queued by
-- `app/services/ingest.py`, which writes a source row and a job row. The worker of `app/worker.py`
-- claims the job and runs its handler, which ends in `ingest_content`: the content is hashed, cut into
-- chunks by `app/services/chunker.py`, embedded by `app/services/embedder.py`, and stored as chunk
-- rows under the source. `app/services/budget.py` records what a model's calls cost and refuses more
-- above a limit; `app/services/rate_limit.py` limits the requests of a key;
-- `app/services/client_cache.py` keeps the clients of the embedding and the generation services, one
-- for each API key. `app/dependencies.py` decides which request is granted which model, and binds the
-- session to that model as its tenant. The routes of `app/api/sources.py` queue, store, delete and
-- rebuild the sources of that model; a crawl (`app/services/crawler.py`) fetches the pages of a site
-- through `app/services/url_validation.py`.
--
-- Which file models which part:
--   Text, Text/Laws          the methods of Python's `str` that the code calls, on lists of code points
--   Str                      those whose result is a native string
--   Dict                     a Python `dict` with string keys, as an association list
--   Models                   `app/models/`: the columns that the services use, as records
--   Chunker                  `app/services/chunker.py`: Chunker/Blocks is `_parse_blocks`, Chunker/Split is
--                            `_last_break` and `_enforce_max_size`, Chunker/Merge is `_overlap_tail` and
--                            `_merge_into_chunks`; Chunker/Content and Chunker/Sizes hold proofs
--   RateLimit                `app/services/rate_limit.py`: `RateLimiter.is_allowed`
--   ClientCache              `app/services/client_cache.py`: `ClientCache.get`
--   Budget                   `app/services/budget.py`
--   Embedder                 `app/services/embedder.py`: `embed_texts`
--   Ingest                   `app/services/ingest.py`: `ingest_content`; Ingest/Db holds the statements on
--                            the tables, Ingest/Queueing the functions that queue a source; Ingest/Repeat,
--                            Ingest/Replace, Ingest/Owned, Ingest/Others and Ingest/Queued hold
--                            proofs
--   Worker                   `app/worker.py`: the job queue and `process_job`; Worker/Handling is the
--                            handlers of the jobs; Worker/Queue, Worker/Stale, Worker/Stranded,
--                            Worker/Outcomes, Worker/Jobs, Worker/Attempts and Worker/Tries hold
--                            proofs
--   ApiKeys                  `app/api/api_keys.py`; ApiKeys/Access holds proofs
--   UrlValidation            `app/services/url_validation.py`: `validate_url`
--   Wikipedia                `app/services/wikipedia.py`: which URLs are articles
--   Crawler                  `app/services/crawler.py`: Crawler/Fetch is `_fetch_page`, Crawler/Site is
--                            `crawl_site` and `parse_html` of `app/services/html.py`; Crawler/Bounds,
--                            Crawler/Ends and Crawler/Once hold proofs
--   Sources                  `app/api/sources.py`: reading, PUT and DELETE; Sources/Submit is the routes
--                            that queue URLs and crawls, Sources/Upload those that queue files and
--                            uploads, Sources/Reingest those that rebuild sources; Sources/Deleted,
--                            Sources/Submitted and Sources/Reingested hold proofs
--   Dependencies             `app/dependencies.py`: `require_model_auth`, `require_chat_auth` and what they
--                            call; Dependencies/Grants holds proofs
--   Users                    `app/services/users.py`
--   Retrieval                `app/services/retrieval.py`: `_expand_neighbours`; Retrieval/Rerank is
--                            `_rerank_chunks`; Retrieval/Expanded holds proofs
--   Chat                     `app/api/chat.py`: a session's history and what is logged; Chat/Handler is
--                            `chat` and `_stream_response`, Chat/Deleted `delete_conversation` of
--                            `app/api/admin.py` with its proof; Chat/Logged and Chat/Replies hold proofs
--   Generation               `app/services/generation.py`; Generation/Streams holds proofs
--   Prelude, Samples         shared names and lemmas on lists; a sample model for the tests
--
-- State is passed explicitly: an operation takes a value of the component's state (`RateLimiter`,
-- `ClientCache`, `UsageTable`, `Database`) and returns the next one. A transaction that commits is one
-- step from a database to the next, and one that raises leaves the database as it was. The worker's
-- concurrency is the order of these steps; the rows that other workers hold locked are a parameter of
-- `claim_jobs`. Exceptions are values (`none`, `raise`, `value_error`).
--
-- Units and bounds. Text is a list of code points, offsets and times are natural numbers (the rate
-- limiter's and the cache's clock readings, seconds in the worker). Money is counted in 10^-8 USD, in
-- which every price per token is a whole number; rounding of Python's floats is not modelled. The
-- components of an embedding are kept as bit patterns, since nothing computes with them here, and a
-- rerank score is a natural number, since it is only compared. Cutting a block runs on fuel, the
-- length of the block, which is enough when `chunk_size` is at least 1, since every piece takes a
-- character (`app/schemas/models.py` asks for at least 100). The loop over the batches of texts runs
-- on fuel, the number of texts, which is enough when `batch_size` is at least 1. The loop of a crawl
-- runs on fuel, an argument, and is `none` when that runs out. Following redirects is a recursion on
-- the rounds that are left.
--
-- Parameters stand for code that is not in the repository: SHA-256, bcrypt, the verification of a
-- session by Clerk, the embedding, the reranking and the generation service, the client factories,
-- `urlparse`, `urljoin`, `unquote`, `fnmatch`, the resolver of host names with its errors, the HTML
-- library, and the client of the Wikipedia requests, which follows redirects by itself.
-- `urlparse` and `urljoin` are taken to return: a request's URLs have been parsed by its schema, but a
-- link of a crawled page for which they raise would end the whole crawl, which is not modelled. What
-- the network answers is a function of the URL: an answer that changes between two requests of one URL
-- is not seen. The job handlers are an interface (`Handlers`) of the dispatcher. The embedding service
-- is taken to return some vector for a request that is not empty, as an INSERT without rows would
-- raise.
--
-- Not modelled: the rest of retrieval, a stream that the client of the chat leaves, the lists that are
-- ordered by server defaults (`list_sources`, `list_api_keys`), the other HTTP handlers, the polling
-- loop of the worker; text extraction, object storage and encryption, which call libraries; schemas,
-- migrations, logging, tracing and configuration.
pub mod Prelude
pub mod Dict
pub mod Text
pub mod Models
pub mod Chunker
pub mod RateLimit
pub mod ClientCache
pub mod Budget
pub mod Samples
pub mod Embedder
pub mod Ingest
pub mod Worker
pub mod Users
pub mod Dependencies
pub mod Retrieval
pub mod Str
pub mod UrlValidation
pub mod Wikipedia
pub mod Crawler
pub mod Sources
pub mod ApiKeys
pub mod Generation
pub mod Chat
