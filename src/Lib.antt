-- ===== src/Lib.antt =====
-- Super: the storage layer of its lakes, the type context, and operators of its query runtime, in Go.
--
-- A pool of a lake holds data objects. A commit object (lake/commits/object.go) is a list of actions
-- that add and delete data objects and their vectors; commit objects are chained to a parent, and the
-- snapshot (snapshot.go) of a commit is what playing the chain leaves. A patch (patch.go) is a change
-- on top of a snapshot, from which commit objects are made and with which branches are merged and
-- commits are reverted. The store (store.go) keeps commit objects and snapshots as files, with caches
-- in front of them. A branch is an entry of a journal (lake/journal): a queue of numbered files in
-- which writers compete for the next number, and a table that is replayed from it. A commit to a
-- branch (lake/branch.go) writes a commit object and moves the branch to it by a checked update.
--
-- A data object (lake/data) is a file of sorted values with a seek index (lake/seekindex), from which
-- a query takes the byte ranges to read. Values are encoded as tagged bytes (zcode) and have types of
-- a type context (context.go), in which each type has one identity. A query is a graph of operators
-- (runtime/sam/op); each pulls batches of values from its parent by the contract of zbuf.Puller, and a
-- router passes one stream on to several operators.
--
-- Which file models what:
--   Commits/Types, Commits/Object   lake/commits/actions.go and object.go
--   Commits/Writeable               the interfaces View and Writeable, and Play (snapshot.go)
--   Commits/Snapshot                the type Snapshot, with lemmas in its children
--   Commits/Patch                   the type Patch, Diff and Revert (patch.go)
--   Commits/Store                   Get, Put, Remove, Snapshot, Path, PathRange, PatchOfCommit,
--                                   PatchOfPath and Vacuumable (store.go)
--   Journal/Queue, Journal/Store    lake/journal/queue.go with reader.go, and store.go
--   Branches                        lake/branches
--   Branch/Run, Branch/Objects      the objects that the methods of lake/branch.go build
--   Branch/Commit                   the method commit of lake/branch.go
--   SeekIndex                       lake/seekindex, lake/data/seekindex.go and reader.go
--   DataWriter                      lake/data/writer.go
--   Zcode/Counted, Zcode/Bytes      zcode/counted.go, and zcode/bytes.go with iter.go
--   Zcode/Builder                   zcode/builder.go
--   Types                           types and values: type.go, complex.go and value.go
--   TypeContext                     context.go
--   Op/Pull                         the contract of Puller, zbuf/batch.go
--   Op/Head, Op/Skip, Op/Tail,      the operators of these names under runtime/sam/op
--   Op/Uniq, Op/Distinct, Op/Yield
--   Op/Apply, Op/Loop               runtime/sam/op/apply.go, and the loop of it, distinct and yield
--   Op/Router                       runtime/sam/op/router.go and fork/fork.go
--   Prelude, GoMap                  shared types, results and Go's maps
--   */Examples                      runs at concrete inputs
--
-- State is passed explicitly, and a method returns its result with the new state. Maps are lists of
-- pairs with unique keys. Identifiers (ksuid.KSUID) are numbers with 0 for Nil, since the code only
-- compares them. Files hold values and not bytes: the BSUP encoding under lake/commits and
-- lake/journal is not modelled, so a malformed commit object is one whose first action is no commit.
-- The caches of github.com/hashicorp/golang-lru are a parameter (ArcCache) with its laws: what a
-- lookup returns was inserted last under that key. Other processes are functions on the stored state
-- that a loop applies between its reads and its writes (Others, World); an entry of the queue and
-- HEAD are written in one step, while a process that dies between the two leaves a state in which
-- HEAD lags.
--
-- An operator is a function over the Pull of any parent, and the theorems on it suppose that the parent
-- keeps the contract (Op/Pull, Plays): a stream sends batches and ends, and a Pull with `done` ends it
-- wherever it stands, both times in the state from which the next stream starts. Expressions are
-- functions with a state that a reset takes to the start. In the router each send on a channel meets
-- its reader in one of three ways, and a theorem on it holds for all of them. A type of a type context
-- is its identity, a number. The file below a data writer is a parameter, with the law that its
-- position is a count that does not go back (DataWriter/Flush, Counts).
--
-- Bounds and fuel: journal identifiers wrap at 2 ^ 64, and a log is shorter than that. The loops over
-- a chain of commits take fuel, and a chain with fewer commits than the fuel is walked to its end;
-- running out is `none`, which no result of the Go code is. The optimistic loops have the ten rounds
-- of the source. A reader of the queue reads at most HEAD entries. The encoding of a uint64 takes eight
-- rounds as a counted integer, and ten as a uvarint. The loop of an operator takes more fuel than its
-- parent's stream has batches; head needs one round. Type identities and the lengths of names are
-- below 2 ^ 32, as the keys of the type context have it.
--
-- Not modelled: the method Select (its spans), the texts of messages, torn reads of HEAD, byte
-- streams of the log, the encoding of type values, the operators that are not named above, expressions
-- and aggregation, pools, the vector runtime, the compiler and the formats.
pub mod Prelude
pub mod GoMap
pub mod Commits
pub mod Journal
pub mod Zcode
pub mod Branches
pub mod Branch
pub mod Op
pub mod Types
pub mod SeekIndex
pub mod DataWriter
pub mod TypeContext
