-- ===== src/Lib.antt =====
-- A verification library for the runtime of Houdini, a GraphQL client: the normalized cache of
-- packages/houdini/src/runtime/cache and small modules beside it.
--
-- The program. The cache keeps records by id, and under each id the values and the links of its
-- fields. The store (cache/storage.ts) is a stack of layers. A layer holds values, links,
-- operations on lists of links (insert, remove, delete) and ids that were deleted. A read goes down
-- the stack: the newest value counts, and what the layers above it inserted, removed or deleted is
-- applied to a list. An optimistic update writes to a layer of its own, which is merged into the
-- layer below when the response is there (resolveLayer), while other optimistic layers stay. Beside
-- the store there are the times of fields, by which a field is stale (cache/staleManager.ts), and
-- the garbage collector, which counts the ticks that a field is not in use and deletes it from the
-- store, the lists and the times (cache/gc.ts). An LRU cache (lru.ts) is used for stores and
-- components.
--
-- The files, each with the code it is about:
--   Prelude/      tests, lists, results and association lists that the modules share
--   Values        the values of a field, nested lists of links, and runtime/flatten.ts
--   EntityMap     the type EntityMap of cache/storage.ts, Record<id, Record<field, value>>
--   Operations    the types of operations of cache/storage.ts
--   Compact       the compaction of operations that writeLayer does
--   Layer         the class Layer of cache/storage.ts: get, getOperations, writeField, writeLink,
--                 isDisplayLayer, clear, replaceID, removeUndefinedFields, delete, deleteField,
--                 insert, remove; writeLayer is in Layer/Merge
--   Storage       the class InMemoryStorage: the getter topLayer is ensure_top, and a method of the
--                 top layer goes through on_top; get is in Storage/Get, resolveLayer in
--                 Storage/Resolve, serialize and hydrate in Storage/Snapshot
--   Stale         the class StaleManager; its mark* methods are mark_all_stale and so on
--   Gc            the class GarbageCollector over a storage and a stale manager
--   Lru           the class LRUCache
--   Keys          the function evaluateKey of cache/stuff.ts
--   Json          plain values as objects hold them, and runtime/deepEquals.ts
--   Nodes         ValueNode of runtime/types.ts; evaluateVariables and variableValue of cache/index.ts
--   Selections    SubscriptionSelection of runtime/types.ts, runtime/selection.ts for data that is
--                 not loading, and filterValue of cache/subscription.ts
--   Subscriptions the index of the class InMemorySubscriptions (cache/subscription.ts):
--                 addFieldSubscription, copySubscribers and the reads; removeSubscribers, reset and
--                 size are in Subscriptions/Removal, all in Subscriptions/Notices
--   Lists         the class ListManager of cache/lists.ts: add; the reads are in Lists/Lookup, remove,
--                 deleteField and reset in Lists/Deletion, validateWhen and when in Lists/Conditions
--   Internal      the walks of InMemorySubscriptions over a selection, with the storage, the lists and
--                 the lifetimes: add is in Internal/Adding, addMany in Internal/Batches, remove in
--                 Internal/Removing, findSubSelections and removeAllSubscribers in Internal/Searches;
--                 removeID of the class List is in Internal/Handlers; of the class Cache, clearLayer is
--                 in Internal/Clearing, and subscribe, unsubscribe, delete, refresh, refreshAll,
--                 registerKeyMap and reset are in Internal/Facade, read and the marks of stale
--                 data in Internal/Access
--   Outputs       the values that a read hands out, GraphQLValue
--   Reading       getSelection of the class CacheInternal: what it does with one field; the walk over a
--                 selection is read_selection in Reading/Walk, hydrateNestedList is in Reading/Nested
--   Tests/        runs at concrete inputs
-- The other files below a module hold its lemmas: Reads, Writes, Deleted and Resolved of what is
-- read, Identity and Order of what stays so, Undo, Undone and Throws of the bookkeeping of
-- writeLink, and Calls of whole sequences of calls. Below Subscriptions, Counts, Ledgers, Fieldwise
-- and Restored are about the reference counts of one field, Index, Apart and Unshared about those
-- of the whole index; below Lists, Members, Added, Deleted, Registry and Sweeps are about the
-- collections and the index by field; below Reading, Settled, Fields, Chosen and Shape are about
-- the object that a read builds, Objects and Complete about what a read promises, Untouched about
-- the store, Verdicts and FullCheck about masks, Written about a read after a write; below
-- Internal, World, Tallies, Steps, Unwinding and Balance count the references along a walk, and
-- Kept carries a property of the steps of a walk over to the walk. A type Call (in Steps, or in
-- Lru/Memory) has a constructor for each method that changes the state, perform runs one, and
-- perform_all runs a list of them.
--
-- How the code is modelled. An object or a Map with text keys is an association list in the order
-- of insertion. replaceID lets two ids share one record object, so an EntityMap has a heap: a table
-- from ids to addresses, and the records at the addresses; writes go through the address, as they
-- do in the code. A method that may throw returns a Result; the state that a throw leaves behind is
-- not modelled. A value is undefined, null, a text, a function, a list, or another value, with its
-- truthiness and a name; a GraphQL value that is an object is such another value. A layer that a
-- caller holds is named by its id. The clock is an argument. Numbers are natural numbers: the code
-- counts up or compares, and of the subtractions that could go below 0 the start of resolveLayer is
-- stopped at 0 by the code itself, and capacity of the LRU cache, which no other method calls, is
-- stopped at 0 here. All loops are structural recursion over the lists they go through, so that no
-- bound on steps is used. A walk over a selection recurses over the selection: where the code looks
-- up the fields for the type of a record, the walk goes to the alternative that the lookup finds.
-- The memo of that lookup is left out. A callback onMessage is known by a text, and a message by
-- its callback, and JSON.stringify is a parameter; so are, for reads, the unmarshal of custom
-- scalars and the text of a value that is no text, in the record Reader. A collection of list
-- handlers is an address on a heap, since it is held under two keys. A read returns the store, too,
-- since getTypename fills the memo of typenames. Iterating over a Map that is changed on the way is
-- written as a loop over the entries at its start, where the changes are to the entry at hand.
--
-- Not modelled: the operations of a list handler that write data to the cache (addToList and what
-- calls it), writeSelection of cache/index.ts, so that a message is known by its callback only and
-- the epoch is left out, what getSelection does for a loading state and for component fields (the
-- selections here have neither; the default value of a component field is written to the store by
-- the read), the pipeline of requests and its plugins, pagination, the marshalling of scalars, and
-- what is network, file system, build tool or user interface. The garbage collector takes the
-- answer of the subscriptions as a parameter (Gc/Watched has the answer that they give), and keeps
-- a log of its calls to the lists; markTypeFieldStale takes the printed key of the field. A
-- callback of the LRU cache that calls the cache again is not modelled; its calls are kept in a
-- log. deepEquals is modelled for values without dates, regular expressions and cycles.
pub mod Prelude
pub mod Values
pub mod EntityMap
pub mod Operations
pub mod Compact
pub mod Layer
pub mod Storage
pub mod Lru
pub mod Stale
pub mod Gc
pub mod Keys
pub mod Json
pub mod Nodes
pub mod Selections
pub mod Subscriptions
pub mod Lists
pub mod Internal
pub mod Outputs
pub mod Reading
mod Tests
