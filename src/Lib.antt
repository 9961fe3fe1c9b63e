-- ===== src/Lib.antt =====
-- librascal: asynchronous connections and a DNS resolver in C++.
--
-- The connection classes keep what they read and write in byte buffers, and the resolver builds
-- and reads DNS packets.
--
-- Chain and its children: the stream buffer of sources/common/datachain.h, datachain.cc and
--   datachainitem.cc. `DataChain` holds the list that `head` and the `next` links make, and `tail`
--   as a place in it; an item has its marks `used` and `dead` and its memory. `new` is a parameter
--   (`Allocator`): the n-th allocation of a call gives NULL or memory with any bytes in it. A round
--   of `append` copies a byte at least, so the fuel is the number of bytes and one.
-- Packet and its children: the datagram buffer of sources/common/packetchain.cc over the same items.
-- Dns and its children: sources/common/resolver/header.cc and the inline functions of resolver.h.
--   A packet is the memory from its first byte on, and a `Cursor` is `src` and `size`; what stands
--   behind the packet is any bytes. The loop of `skip_name` takes a byte at least in a round; the
--   decompressing `get` follows pointers and may not end, so its fuel is an argument.
-- Stock and its children: the table of ids of sources/common/util/stock.h. Whether each of
--   its arrays can grow is a parameter. 32-bit ids are patterns of bits, -1 among them.
-- Object: reference counts of sources/common/object.h, object.cc and rascal_cancel.cc over that
--   table, with objects at addresses of a heap.
-- Options: sources/common/rascal_options.cc.
-- Srv and its children: sources/common/resolver/rascal_getsrv.cc, the records of a service, the
--   order of its addresses and the choice of the next one. Random numbers, memory, what is
--   read of a deleted record, `rascal_getaddr`, `rascal_connect` and the client's filter are
--   parameters. A round of `sort` takes an element
--   out, so the fuel is their number.
-- Requests and its children: sources/common/resolver/request.cc, monitor.cc and resolver.cc, the queue
--   of requests and the walk of the monitor, with the clock's times, and which
--   requests `cancel` deletes, as arguments. Lookups has
--   resolver/rascal_getaddr.cc and rascal_gethost.cc, from a request to its callback; the fuel of
--   `on_read` is that of the names of a reply.
-- Socket: `sock_t` of sources/rascal.h and common/rascal.cc.
-- Connection and its children: the connections of sources/bsd. Connection has the object, its
--   buffers and the calls of the dispatcher, Stream the handlers of connection.cc, Datagram those of
--   connection_dg.cc, Open connection_in.cc and the calls that make a connection, Handles the calls
--   by an id on both kinds of buffer, Work the round of a worker. What the system calls return is an argument; the user's
--   dispatcher is a function of the calls so far to an answer and further calls. The loop of
--   `on_write` takes a byte at least from the queue in a round, so the fuel is their number and one.
-- Nt and its children: the Windows port of sources/nt. Nt has the connection of connection.h and
--   connection.cc and the constructors of its overlapped operations, Worker what happens when one is
--   over, Start and Connector connectex.cc and the calls that make a connection. A connection keeps
--   the operations that it has started; a round of `iocp::Worker` takes one out. The dispatcher may
--   call the library again, so its fuel is the depth of such calls.
-- Startup and its child: sources/bsd/rascal_init.cc and nt/rascal_init.cc, `iocp::init`,
--   `rascal_initres` and `rascal_set_nameserver`.
-- Service and its child: sources/common/rascal_connect_service.cc and the constructor of `getsrv`.
-- Address: sources/common/rascal_aton.cc and rascal_ntoa.cc.
-- Messages and its child: sources/common/rascal_get_errmsg.cc and `get_event_name` of rascal.cc.
-- Util and its children: util/list.h, util/ftspec.cc, util/strlcpy.cc, util/strlcpya.cc and
--   util/memory.cc below sources/common.
-- Tests: runs at small inputs, and each theorem with hypotheses at an input that meets them.
--
-- Bytes and machine words are natural numbers; sums that can wrap are reduced.
-- Not modelled: threads and locks, the system calls on sockets, the message queue of the Windows
-- port, the calls that change a connection's dispatcher or context, `rascal_accept_service`, the
-- debugging output and the samples.
pub mod Prelude
pub mod Chain
pub mod Packet
pub mod Dns
pub mod Stock
pub mod Tests
pub mod Options
pub mod Srv
pub mod Address
pub mod Messages
pub mod Object
pub mod Util
pub mod Requests
pub mod Socket
pub mod Startup
pub mod Connection
pub mod Service
pub mod Nt
