-- ===== src/Lib.antt =====
-- A model of the collaboration server's core: the Yjs wire formats, documents, the awareness and
-- the rooms that serve them, the registry of rooms, and the envelopes between replicas.
--
-- The server keeps a Yjs document per room. A client's websocket frames are messages of the sync
-- and awareness protocols (internal/protocol); their payloads are updates, state vectors and
-- awareness updates, all of them in the encoding of lib0 (internal/crdt/lib0). An update holds
-- structs by client and a delete set (internal/crdt), which a document integrates into its store.
-- A room (internal/room) owns a document and its connections, and hands what changes to the other
-- connections, to a writer and to the bus. Replicas send each other the same payloads in envelopes
-- (internal/cluster). The registry finds or opens the room of a name for a tenant.
--
-- Which file models which part:
--   Base, Base/*: shared tests, lists, errors, 64-bit words, and Go maps as association lists
--     (Base/GoMap).
--   Lib0/Decoder, Lib0/Encoder: internal/crdt/lib0/decoder.go and encoder.go. ReadVarUint is
--     read_var_uint, WriteVarUint is write_var_uint, and so on.
--   Lib0/Transfer: what it means that a writer and a reader agree, and how such facts compose.
--   Lib0/VarUint, Lib0/VarInt, Lib0/Bytes: that fact for each kind of number and string.
--   Lib0/Any, Lib0/Float: internal/crdt/lib0/any.go, writeAny and readAny, and Go's conversions
--     between numbers that they use.
--   Lib0/Utf16, Lib0/Utf16/Split: UTF16Length of internal/crdt/lib0/lib0.go and splitUTF16 of
--     internal/crdt/content.go.
--   Crdt: internal/crdt/id.go and the length readers of content.go.
--   Crdt/StateVector, Crdt/DeleteSet: statevector.go and deleteset.go; Crdt/ClientMap is the
--     layout that both have on the wire.
--   Crdt/Content, Crdt/Struct, Crdt/Update: content.go, struct.go and update.go, with the wire
--     form of a nested type from type.go.
--   Crdt/Update/Order: the order of the blocks. Crdt/Update/Vector: Update.StateVector.
--   Crdt/Store: internal/crdt/structstore.go. Its children state what a sound store is (Gapless),
--     and follow append and the links (Links), Get (Find), splitItem (Split) and GetItemCleanStart
--     and GetItemCleanEnd (Clean).
--   Crdt/Doc: internal/crdt/doc.go, a document and resolve; Crdt/Doc/Place: integrateItem and
--     resolveConflict; Crdt/Doc/Queue: ApplyUpdate, integrate and retryPending;
--     Crdt/Doc/Deletes: applyDeleteSet, deleteRange and DeleteSet; Crdt/Doc/Sync:
--     EncodeStateAsUpdate. Crdt/Doc/Placed, Deleted, Ready, Sound and Applied follow the store
--     through them, Crdt/Doc/Progress is about the loops, and Crdt/Doc/Sent about what is sent.
--   Protocol/Messages: internal/protocol/messages.go, Decode and the Write functions.
--   Protocol/Awareness: internal/protocol/awareness.go, ApplyUpdate and Encode;
--     Protocol/Awareness/Removal: its Sweep and RemoveClients.
--   Cluster/Envelope: internal/cluster/envelope.go, Encode and Decode.
--   Cluster/Memory: internal/cluster/memory.go, the bus inside one process.
--   Room: internal/room/room.go, the state of a room and what it does to others. Room/Outbound:
--     leave, broadcast, drop and deliver; Room/Client: frame and what it calls; Room/Remote:
--     fanout.go; Room/Events: hooks.go; Room/Persist: load and record of persist.go, versions.go and
--     measure of memory.go; Room/Handle: handle, tick and stop, with the commands of read.go,
--     write.go and versions.go. Room/Outbound/Follows and Room/Handle/Sound follow the state
--     through them.
--   Room/Start: how Run begins. Room/Writer: persist and compact of persist.go, saveVersion of
--     versions.go; Room/Writer/Trace compares jobs with calls of the database. Room/Offline: Fetch
--     of read.go and Import of write.go.
--   Room/Handover: send, Run and stop of room.go as steps on the mailbox.
--   Room/Registry: internal/room/registry.go and memory.go; Room/Registry/Reach has its steps.
--   Storage/Uuid: internal/store/uuid.go, DocumentID and OwnerID.
--
-- How the state corresponds to the code. Bytes and Go strings are lists of numbers. A decoder is
-- the part of its buffer that is still to be read; a method returns its value with the rest, or an
-- error, after which no caller reads on. An encoder is its bytes and the first error that it
-- recorded. An int64, a uint64 or an int is its 64-bit pattern, with the wrap-around written out.
-- A float is its IEEE 754 pattern. A Go map is an association list; where the code ranges over a
-- map, the properties hold for every order. A loop over counted input is a recursion on the count.
-- The loops that have no count are given rounds: the binary search as many as there are elements,
-- since a round leaves fewer of them, the eviction as many as there are entries, since a round
-- drops one. The nesting of an any value is bounded by the 129 levels that readAny allows.
--
-- The turns of integrate are as many as there are structs and one more, those of retryPending as
-- many as there are structs that wait and one more, since a turn that takes no struct is the last.
-- The walks along a list of items, in resolveConflict and leftmost, are given as many steps as the
-- store has structs, which is enough for a list without a cycle; that the lists have none is not
-- proved. The loop of deleteRange has a step for each struct of the client and one more, since it
-- splits one at most.
--
-- An integrated item never changes the id that it starts at, so a pointer to an item is that id,
-- and what Go keeps in the objects, the links of an item and the start and the entries of a type,
-- is in the store. A type is its root name or the id of the item that owns it. What resolve sets in
-- an item that is then not integrated is lost here, as it is overwritten in the code. A run-time
-- panic of an index is the error slice_out_of_range.
--
-- A room is a record that only its goroutine changes, so a command is a function on it. A
-- connection is a number; whether it may write, what each call of Send gives, the text of an error
-- and the estimate of a document's size are given from outside. What the room does to others is a
-- list of effects. The queues of the publisher, of the writer and of the envelopes are taken to
-- have space. A leave may drop slow connections, which leave in turn; it has as much fuel as there
-- are connections, since each leave that goes on removes one. The loop of get evicts a room in
-- each turn, so more turns than there are rooms are enough where nobody else opens any. What other
-- callers do while its lock is free, and what the database answers of owners, is given for each
-- turn; SHA-1 is a parameter of the registry. The database that the writer and Import call is a
-- state with functions on it, of which nothing is assumed.
--
-- Not modelled are the text and map views of a document, the goroutine of a room's publisher, the
-- gateway, the storage, authentication and the connections between replicas, and,
-- as pure output, logs and metrics.
pub mod Base
pub mod Lib0
pub mod Crdt
pub mod Protocol
pub mod Cluster
pub mod Room
pub mod Storage
mod Tests
