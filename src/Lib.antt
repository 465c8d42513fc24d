-- ===== src/Lib.antt =====
-- zeno-plugin: publishing and caching of assets for content creation applications.
--
-- A publisher (zeno_client/publisher.py) cuts a file into chunks by its content
-- (zeno_client/chunking.py), sends the chunks that the server lacks and a manifest that lists them
-- (zeno_client/manifest.py), and registers a version that names the manifest. A reader asks the
-- local cache (zeno_client/cache.py), which fetches the manifest and the chunks it lacks, puts the
-- file together, verifies it, keeps an index of what it holds (zeno_client/cache_index.py) and
-- evicts what was used least recently. The hub (chimera_hub/) is a process on the same machine that
-- does both for thin clients over HTTP. Canonicalizers (blender/canonicalize.py,
-- maya/canonicalize.py, usd/canonicalize.py, chosen by zeno_client/dcc_registry.py) remove what
-- changes from save to save.
--
-- Prelude: tests, lists, texts, results, integers; Prelude/Action has methods that change a state
--   and may raise, with triples for what they keep and promise. A text is the list of its codes.
-- Chunking: `find_cut` is `_find_cut`, `iter_chunks` and `iter_chunks_in_range` carry their names;
--   Cut, Cover, Sizes, Range and Resync are proofs. The gear table and BLAKE3 are parameters. The
--   loops run on fuel, the length of the file, since each round takes a byte at least.
-- Manifest: `build_manifest_v1`, `_v2`, `_v3`, `parse_manifest`; Value has JSON and Python's
--   conversions, RoundTrip the proofs. The JSON codec is a parameter.
-- Index: the SQL statements of cache_index.py on a list of rows; Rows, Sorting and Order are
--   proofs.
-- Cache: Disk has the files and the state, Cache the steps that the methods share, Assemble
--   `_ensure_from_manifest`, Ensure `ensure_cached` and `ensure_uri_cached`. Eviction, Claims,
--   Soundness, Checks, Assembled, Entries, Succeeds and Stale are proofs. The client's answers,
--   zstandard and `file_lock` are parameters; the lock stands for what other processes do
--   meanwhile. The eviction loop runs on fuel, the number of rows, since each round deletes one. A
--   file name is taken to have no separator, and a size to be null or a whole number. The client
--   answers the requests of one run alike, but for the second request for a manifest.
-- Canonical, Registry: blender/canonicalize.py and the choice of a canonicalizer. zstandard, gzip
--   and the canonicalizers of Maya and USD are arguments. The loop runs on fuel, one more than the
--   bytes that are left, since a block takes 16 bytes at least.
-- Maya: maya/canonicalize.py, the loop over the lines of a scene; Semantic has its semantic
--   anchors; Lines, Lost and Anchors are proofs. What Python's `re` finds with the patterns of the
--   file, UTF-8 and the formatting of floats are parameters. The loop is recursion on the lines.
-- Usd: usd/canonicalize.py; Order is its proof. zipfile is a parameter. Each archive inside
--   an archive takes fuel, which is how deep Python lets calls go: an archive that contains itself runs
--   out of it.
-- Entropy: zeno_client/entropy_segment.py, which tells the stretches of a file apart; floats are a
--   parameter. The scan runs on fuel, the length of the file.
-- Http: zeno_client/_http.py and zeno_client/exceptions.py; the response is a parameter.
-- Hub: handlers.py and the requests; Routes is server.py, Token its comparison of tokens, Session
--   the session file of ipc_contract.py. A handler's answer lists the calls that it makes of the
--   publisher, the cache and the user interface, which are the record `Services`.
-- Client: the calls of zeno_client/client.py that publishing and ingest make, as the parameter
--   `Api`; Client/Laws says what is relied on of the server, Client/Stored has the triples of the
--   calls.
-- Omni: zeno_client/omni_ingest.py. Patch has the training samples and the patch of a stretch,
--   Materialize writes a file from its manifest; zstandard and the anchors of Maya are parameters.
--   Restored says what segments stand for; Segments, Ingested, Returns, Written, RoundTrip and
--   Orphan are proofs. The samples run on fuel, the length of the parent.
-- Publisher: publishing a file whole, in chunks, or with the omni chunker; Delivered says what is
--   promised; Whole and Published are proofs.
-- Runtime: chimera_hub/runtime.py, the session that a client reads (zeno_thin/client.py), and main
--   of chimera_hub/__main__.py as steps of several processes (Processes); Invariant, Single, Race
--   and Found are proofs. Signals and sockets are parameters: which addresses can be listened at,
--   and which exclude each other.
-- Thin: zeno_thin/client.py, what an application sends to the hub and makes of the answer; Sent and
--   Carried are proofs, with Hub/Routes at the other end.
-- Tests: concrete runs, and the theorems applied where their hypotheses hold.
--
-- Not modelled: the review and task panels, the HTTP client itself, the Qt dialogs, and the add-ons
-- that run inside Blender and Maya.
pub mod Cache
pub mod Canonical
pub mod Chunking
pub mod Client
pub mod Entropy
pub mod Http
pub mod Hub
pub mod Index
pub mod Manifest
pub mod Maya
pub mod Omni
pub mod Prelude
pub mod Publisher
pub mod Registry
pub mod Runtime
pub mod Tests
pub mod Thin
pub mod Usd
