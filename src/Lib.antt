-- ===== src/Lib.antt =====
-- sapedb, a storage service whose only interface is a named, declared operation.
--
-- Base holds what all modules share: lists over the native numbers, Go's (value, error) pair as
-- `Result`, `bytes.Compare` as `lex`, big-endian integers, and `sort.Search`. A byte is a number
-- below 256, and a byte slice a list of them. A machine integer is a number whose range is a
-- hypothesis or follows from the code's own tests.
--
-- Float64: Go's float64 as its 64 bits, with the conversion from integers up to 2^53 that the code
-- uses. `signed` is what the bits are worth, in units of 2^-1074.
--
-- Keys: internal/keys/keys.go. Keys/Codec has the functions (Encode is `encode_field`, EncodeKey is
-- `encode_key`, Decode is `decode`, DecodeKey is `decode_key`); Keys/Shape and Keys/Composite say
-- what they write in one piece; Keys/Order and Keys/Numbers compare keys; Keys/RoundTrip reads them
-- back. Every loop is a recursion on the bytes or the fields, so there is no fuel.
--
-- Btree: internal/btree. Btree/Node has the sizes, searches and splits of node.go, and Btree/Leaf
-- the leaf cases of Get, insert and remove of tree.go. `sort.Search` recurs on fuel; n rounds for n
-- indexes are enough, since a round halves what is left. `splitLeaf` returns (0, false) and
-- `splitBranch` (-1, false) where the model answers `none`.
-- Btree/Pages has the calls of the pager that tree.go makes, as code on a record of the pager, the
-- pages and which writes succeed (`Act`, with do blocks); a page is what decodeLeaf and decodeBranch
-- answer about it, so the bytes of a page are left out, and a page whose write failed does not read
-- back. An index out of range is the fault `panic`. Btree/Overflow, Btree/Tree, Btree/Remove and
-- Btree/Scan have store to release, Get and Put, Delete, and Ascend and Descend; a root is an
-- argument and a result where the code keeps it in the Tree, and the root after a failed Delete is
-- not followed. Get, insert, remove and the walks recur on fuel for the depth of the tree, load on
-- fuel for the length of the value; a loop that runs out of it answers `stuck`.
-- Btree/Shape has trees as data, with what it means for pages to hold one (`Stored`) and for its
-- separators to divide its keys (`Ordered`). Btree/Flat is about its entries in one list,
-- Btree/Lookup about Get, Btree/Walk and Btree/WalkBack about Ascend and Descend, on Btree/Keeps.
-- Btree/Writes has what place and the writes take and leave; Btree/Plain, Btree/Place and
-- Btree/Halves the parts of a tree that insert changes, and Btree/Even the cut of a node; Btree/Insert, Btree/InsertNode and
-- Btree/PutTree its cases; Btree/Whole and Btree/PutGet Put on a tree that may be empty, and Get
-- behind it. Btree/Chain is about values out of line. The trees of Put are of values of at most
-- MaxInline bytes, and its other failures are those of IsRefusal.
--
-- Pager: internal/pager, the accounting of pages. Pager/Freelist has Allocate, Free, Snapshot,
-- Release and promote, Pager/Commit has writeFreelist and Commit with the calls of the file in their
-- order, Pager/Counts and Pager/Accounts the accounts of the pages in use and the free ones.
-- A Go map is an association list and a set a list; the order in which Go ranges over a map is not
-- fixed, and the code sorts where it matters. The bytes of a page are left out: a list page is its
-- link and its entries. The loop of writeFreelist recurs on fuel, the pages needed and two.
-- Pager/Reading has readFreelist, loadMeta, Rollback, OpenWith without a key, Close, Flush and
-- Abandon, over a disk that answers what readMeta and Read answer; the loop of readFreelist has
-- three rounds more than the file has pages. Pager/ReadBack, Pager/Pending, Pager/Rolled and
-- Pager/Reopen lead from a commit to the list it left; Pager/Settles is about the loop's end;
-- Pager/Guard, Pager/CommitGuard and Pager/Snapshots follow a page that a snapshot sees through any
-- run of operations, given as steps. Pager/Crash has the file as the calls leave it and what a crash
-- may keep of them, Pager/Transaction the calls of one transaction, Pager/CommitCrash and
-- Pager/CommitOnce the crash of a commit, Pager/FlushAccounts the flush of a led file.
-- Pager/Rollback and Pager/LedList are about lists read back with other readers or in a led file,
-- Pager/Closing about the mark of a close.
-- Btree/LoadTotal is about load on a damaged file, Btree/LedHead about Put into a new led file.
--
-- Store: internal/store. Store/Namespace has namespace.go (SplitOperationName, holder,
-- NamespaceClaim and claimFor), as code on the same pages as the tree; what encoding/json writes and
-- reads of a claim are parameters. Store/Claims is about claimFor over Get and Put.
-- Store/Budget has budget.go, with a run of `spend` over the rows of an answer, and Store/Partition
-- the checks and the expiry of partition.go.
--
-- Dbname: internal/dbname/dbname.go.
--
-- Frame: internal/protocol/frame.go. A source is the bytes that are still to come; `read` answers
-- what `Reader.Read` does and what is left of the source.
--
-- Ulid: internal/ulid/ulid.go. `next` takes the clock and what was read of the random bytes as
-- arguments and answers the time and random part that `write` lays out in base 32. Ulid/Text has
-- `write`, `Time` and `index`: Reading is about the digits that `Time` reads, Writing about what the
-- loops of `write` have laid out, RoundTrip joins the two.
--
-- Not modelled: the rest of the repository. The network, the operating system and the command line
-- are input and output. Of the store over the tree only namespaces,
-- the budget of an answer and partition declarations are modelled.
pub mod Base
pub mod Btree
pub mod Dbname
pub mod Float64
pub mod Frame
pub mod Keys
pub mod Pager
pub mod Store
pub mod Ulid
