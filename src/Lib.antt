-- ===== src/Lib.antt =====
-- The operations of a Go client for OPC DA servers over DCOM, modelled and verified.
--
-- A session with a server holds persistent groups, and a group holds registered items. The batched
-- operations add, read, write and remove items: each takes hold of its group, plans its work from
-- the group's registry, sends requests of at most 1000 items, and settles each reply. Values cross
-- the wire as Automation VARIANTs.
--
-- The state is passed explicitly. An operation takes the server's replies as a function from the
-- number of the call to a reply, which is either the error of the RPC or a decoded response with
-- HRESULTs and arrays of any length; and it takes the error of the context and of the keepalive as
-- arguments. Go maps are association lists; an iteration that the source leaves open in its order
-- is one in the order of insertion. Errors are values, with their chains for errors.Is and As.
--
--   Prelude       shared names, lists, integers with their w-bit encodings, byte strings, maps
--   Result        a value or an error, with do blocks
--   Errors        errors.go
--   Text          UTF-8 and UTF-16 as the client uses them; validateItemID of opcda.go
--   Values        vartype.go, value.go, array.go, scalar.go, date.go, and scalarValue of
--                 read_wire.go: values, their VARIANTs, and the conversions both ways. Encode,
--                 Write and Dates go to the wire; Decode, Read and ReadArray come from it.
--                 Layout has the layouts and bounds of arrays.
--   Group.State   group_dcom.go: a group, a registered item, getGroup, acquire
--   Group.Batches the loop over batches that the operations share (batch_wire.go, batch.go)
--   Group.Add     addItems of batch.go
--   Group.Read    read, readGroup and readLocked of batch.go; the results of batch_wire.go and
--                 read_wire.go
--   Group.Write   write of batch.go
--   Group.Remove  remove.go
--   Quality       quality.go, and the classes of opcda.go
--   Keepalive     the object pinger of keepalive.go: the requests that it sends are part of its state
--                 with their answers. PingSet has the exporter's sets, which are a function of these
--                 requests, and Stop the pinger's beginning and end
--   Session       registerGroup and removeGroup of group_dcom.go; the error of disposeGroup is an
--                 argument
--   Lifecycle     openPersistentGroup, disposeGroup, addGroup, removeGroup and setGroupActive of
--                 group_dcom.go and closeContext of keepalive.go, with the resources of the server:
--                 references, groups, ping counts. What the server's answers handed out and made
--                 is noted where they are read (Opening, Remote), apart from the client's variables.
--   Single        withSingleItem of read.go, writeItem of write.go, and the checks of their
--                 responses, over a record with the outcome of each outside call
--   Browse        browse.go and browse_wire.go: the server is a function from the number of the call
--                 to its answer, and the loop has a number of passes as its fuel; browseItemIDs
--                 is over a record with the outcome of each outside call
--   Properties    properties.go and properties_wire.go: Paired for the lists, Released for the
--                 interface
--   Decimals      Currency.String and Decimal.String of value.go, and the parsing of both in
--                 cmd/opcda/value.go
--   Endpoint      extractTCPPort of dcom.go
--   Server        connect, AddGroup, GetServerStatus and Close of server.go; Server.Closing has the
--                 orders in which concurrent calls of Close run
--   Poll          runPoll of cmd/opcda/poll.go
--   Examples, and the Examples of the other modules: tests and the theorems at concrete inputs
--
-- The nesting of VARIANTs is the source's: depths above 32 are refused, and the recursion is on the
-- 33 - depth levels that are left. The fuel for the list of batches is the length of the list,
-- which is enough since every batch has an entry.
--
-- Arithmetic of float64 in DATE conversions and the marshalled length of a VARIANT are parameters
-- (Values.Runtime), being code of Go's runtime and of go-msrpc. Not modelled: the NDR adapters,
-- the set-up of connections and activation but for the object port, ProgID resolution, and the
-- command line program but for its decimals and runPoll.
pub mod Prelude
pub mod Errors
pub mod Result
pub mod Text
pub mod Values
pub mod Group
pub mod Quality
pub mod Keepalive
pub mod Session
pub mod Lifecycle
pub mod Single
pub mod Browse
pub mod Properties
pub mod Decimals
pub mod Endpoint
pub mod Server
pub mod Poll
pub mod Examples
