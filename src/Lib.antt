-- ===== src/Lib.antt =====
-- wenchang: persistent memory for agents, kept as small files behind tools.
--
-- A memory file stands at a path `{scope}/{entity_id}/{area}/{name}.md`. `MemoryStore` reads, writes
-- and edits files through a storage backend, which replaces an object only at an expected version;
-- each mutation also replaces a token in an index cache, which the adopter supplies.
--
-- Paths models src/wenchang/paths.py: the grammar, `build_path`, `build_prefix`, `parse_path`.
-- FileFormat models src/wenchang/file_format.py: fact lines (Facts), bodies (Body), and metadata with
-- its string map (Metadata). Errors holds the classes of src/wenchang/errors.py.
-- Storage is the protocol of src/wenchang/storage/__init__.py as a record of calls, Storage.Contract
-- its documented behaviour for a single client, Storage.Memory the storage of
-- src/wenchang/storage/memory.py, which fills the contract (Storage.Memory.Lawful).
-- Core models src/wenchang/core.py: Core.Read, Core.Write and Core.Edit the file operations,
-- Core.Listing and Core.Cursor the listings, Core.Content and Core.Merge the edits of text and
-- metadata, Core.Invalidate the cache invalidation. Core.Rules and Core.Commit carry the proofs.
-- Core.Progress and the `Returns` modules say when an operation returns. Access models
-- src/wenchang/scope.py and src/wenchang/identity.py, IndexCache src/wenchang/index_cache.py.
-- Core.Operator has `invalidate_index`, `purge` and `export`. Core.Collect is `get_memory_index`,
-- Core.Index its order and byte cap, Core.Cached a listing as the index cache keeps it, Json the values
-- of JSON.
-- Storage.Filesystem.Segment has the file names of src/wenchang/storage/filesystem.py.
-- Storage.Shared is the protocol as clients that run at the same time see it, Storage.Shared.Scheduled
-- the in-memory storage with other clients' calls before each call; Core.Interleaved has the four
-- mutations over it. Tools models the tools of src/wenchang/tools.py over a client, the interface of
-- src/wenchang/transport.py: Tools.Arguments the checks, Tools.Session the tools, Tools.Own and
-- Tools.Safety which calls they make, Tools.InProcess the client over a store in the same process,
-- Tools.Render what an agent is shown. Observer is src/wenchang/observer.py with the wrapper of a tool.
-- Text, Utf8, Dict and Base are Python's texts as code points, UTF-8, dicts, and shared helpers.
--
-- An operation is a function from the state of the backend to a result and a state; an exception is
-- an error value. The store over another backend, or between other clients, is the same definition
-- with another `Backend`. Python's table of Unicode categories is a parameter. `replace_fact` tries 3
-- times, as the source does. The loops over the pages of a listing take a number of rounds and end in
-- `out_of_fuel` when it is used up; one more round than there are objects is enough for `at_file_cap`,
-- `drain` and `export`.
--
-- JSON, ISO 8601 and base64 are Python's: the record `Codec` has their functions, `IsCodec` the round
-- trips of JSON, for texts without surrogates, and of ISO 8601, for the instants that UTC holds, and
-- `IsBase64` that of base64. `ListingCodec` has the JSON of the cached listings, `IsListingCodec` its
-- round trip, for texts without surrogates and objects without repeated keys. An instant counts from
-- one day before `datetime.min`, so that a datetime with any offset has one; those that UTC cannot
-- hold make `metadata_to_map` raise. The clock and `uuid4` are calls of the backend. `Contract` is the
-- case in which the backend answers every call; `Shared` lets a call raise any error. Not modelled: the calls of the file system backend, the GCS
-- backend, the MCP server, the texts of messages and prompts, the evaluations and the site.
pub mod Base
pub mod Text
pub mod Paths
pub mod Utf8
pub mod Errors
pub mod Dict
pub mod FileFormat
pub mod Storage
pub mod Core
pub mod Access
pub mod IndexCache
pub mod Tools
pub mod Json
pub mod Observer
pub mod Tests
