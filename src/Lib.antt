-- ===== src/Lib.antt =====
-- lexicon-mcp: the data layer that installs a dictionary data set, and the router that serves it.
--
-- A release is described by a manifest (src/lexicon_mcp/data/manifest.py). A request for languages
-- and capabilities is resolved against it to a selection of components (data/selection.py), from
-- which an activation record is built (data/activation.py). Components lie in a store under their
-- digests (data/store.py). The lifecycle (data/component_lifecycle.py) fetches what the store lacks,
-- writes the record and moves the pointer to it; it also amends, activates, verifies, prunes and
-- forgets. The router (runtime/router.py) is the view that the server has of an activation: it says
-- which component serves a language, why none does, and holds the open connections. The runtime
-- service (runtime/service.py) answers the tools from what is behind a connection. The pipeline
-- decides which languages share a pack (pipeline/packs.py).
--
-- How the files correspond to the code (paths from the repository's root):
--   Prelude     the library's names, lists, dictionaries as association lists in insertion order,
--               sorting, and Python's exceptions as values of a result type, by their class.
--   Json        the values of `json.loads`, and `sort_keys=True`; Equality compares them.
--   Text        the regular expressions of src/lexicon_mcp/data/manifest.py, on code points.
--   Codec       what is taken from `json`, `hashlib` and `str`, with the comparison of bytes, as a
--               record with laws: that what was dumped is loaded with its keys in order, that a
--               digest looks like one, and that bytes compare equal exactly if they are the same.
--   Manifest    src/lexicon_mcp/data/manifest.py: the dataclasses and their reads; its children
--               hold the parsers, one function per `_parse_…` function (Scalars, Paths, Integrity,
--               Components, Packs, Parse), and what they guarantee (SafePaths, Tags, Payloads,
--               Checked, Claims, Routing, Origins, Cases, Accepted).
--   Selection   src/lexicon_mcp/data/selection.py: `resolve`, with one function per loop; Loops
--               turns the loops into recursions over the request, on which the proofs stand.
--   Activation  src/lexicon_mcp/data/activation.py: Build (`build_activation`,
--               `compute_activation_id`, `to_dict`), Parse (`parse_activation`), and proofs.
--   Store       src/lexicon_mcp/data/store.py: an entry is what stands at the path of a digest.
--   Install     src/lexicon_mcp/data/component_lifecycle.py: `Root` is the state of a data root,
--               Install has the reads and Install/Write the operations that write. A method that
--               may raise after it has written is a function from a state to a result and a state,
--               so that what was written before the raise stays written. A write goes through
--               `put`, which is `_write_atomic` of src/lexicon_mcp/data/lifecycle.py: it replaces the
--               file or, where the field `writable` of the state refuses, raises OSError and leaves
--               it as it was. The children Unmoved, Commit and Atomic are about an install that
--               fails, Success, Verified, Damaged and Stale about one that returns.
--   Router      src/lexicon_mcp/runtime/router.py: `Connections` is the state of a `PackRouter`.
--               Cache and Recency are about its cache; its child Traversal is
--               src/lexicon_mcp/runtime/traversal.py, over that router.
--   Keys        the tuples by which rows are sorted, and Python's stable sort by a key.
--   Pipeline    src/lexicon_mcp/pipeline/packs.py: Numbers has the three digits of a bundle's number,
--               Plan the two planners, with `Planning` as the state of their loop.
--   Service     src/lexicon_mcp/runtime/service.py: Arguments (the checks of numbers, `validate_limit`
--               of runtime/normalization.py among them), Allocate (`_round_robin_allocate`), Rows
--               (the rows of relations and their keys), Diverse (`_target_diverse_relation_rows`),
--               Weave (the round robin over buckets that several methods have), Rank
--               (`_rank_oriented_relation_rows`), Frontier (`_transitive_frontier_rows`), Transitive
--               (`_transitive_relation_rows`) and Relations (`dictionary_relations`).
--   Tests       runs at concrete inputs, on a small codec whose bytes are JSON values.
--
-- A `for` loop is a recursion on the list that the source runs over. A `while` loop, which the
-- round robins are, runs on fuel, and its result is `none` if the fuel runs out: a round takes a
-- row or is the last one, so one round more than the rows that may be taken is enough. Sizes are
-- natural numbers, as Python's integers are unbounded; a negative number is a value that the checks
-- refuse. The installation lock is a flag that says whether another process holds it: operations
-- that take it run one after the other, and the two reads that the source makes before it takes the
-- lock are made in the same state here. The clock enters as the texts that it returns, free space
-- as an optional number, the download as a function that stages a component or fails, SQLite as a
-- function that opens a file and one that reads the language catalogue. The query that the
-- traversal runs on a pack is a function of the connection, which raises what SQLite raises if the
-- connection is closed. The service's queries are the fields of the record `Database`, with nothing
-- assumed of the rows that they return; a row has the columns that the service ranks, joins and
-- filters by, and not those that it only renders. Where the source tells rows apart by `id()`, the
-- model does by their identity, of which the rows at that place have each their own. A sort by a
-- key that two rows may share keeps their order, as Python's does.
--
-- Not modelled: the messages of exceptions; the status report of the lifecycle; file names of
-- temporary files and the order of flushes below a single write, which fails as a whole or not at
-- all; errors of the system other than those of a write and of the reads that the source guards: a
-- staged component that cannot be moved into the store counts as one whose download failed, and the
-- removal of a file by prune or forget succeeds; empty directories of the store. Of the service, the
-- SQL text, the normalization of words, the check that a language is supported, the rendering of rows
-- with its error on an unknown code, and the handlers for lookup, synonyms, translation, semantic neighbours and word play. Of the rest of the
-- program, semantic search, the older lifecycle of schema 1, the corpus pipeline apart from its
-- plan of packs, the command line and the server are not part of this development.
pub mod Prelude
pub mod Json
pub mod Keys
pub mod Text
pub mod Codec
pub mod Manifest
pub mod Selection
pub mod Activation
pub mod Store
pub mod Install
pub mod Router
pub mod Pipeline
pub mod Service
pub mod Tests
