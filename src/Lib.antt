-- ===== src/Lib.antt =====
-- dns-wrapper is a DNS forwarder. It answers or forwards the requests that reach its sockets, by
-- rules on the MAC and IP addresses of the client. The rules stand in a block of shared memory, which
-- a second process of the program edits.
--
-- A datagram goes through `DnsServer::receive` (src/dns/server.cpp): `DnsPacket::Read` decodes it, a
-- request is checked by `DnsPacket::Validate`, the client's MAC address is looked up among those that
-- raw frames have shown, and `ShmRuleEngine::Evaluate` chooses between `Resolve`, which forwards the
-- request to every upstream server under a new identifier, and `Redirect`, which answers it. An
-- upstream answer is matched with the waiting request and sent to everyone who asked.
--
-- Common: Boolean tests, lists, outcomes, byte arrays and masks that the other parts share. An outcome
--   is a value, an error code, `fault` for an access outside an array (or through a null or freed
--   pointer), or `stuck`, for a model's loop that runs out of fuel.
-- Net.Buffer: include/net/netcommon.h, the packet buffer and its macros, as a state monad.
-- Net.Frame: src/net/packet.cpp, the raw Ethernet frames.
-- Dns.Header, Dns.Question, Dns.Record, Dns.Packet: src/dns/dnsheader.cpp, dnsquestion.cpp,
--   dnsrecord.cpp and dnspacket.cpp with their headers under include/dns. A definition has the method's
--   name in lower case with underscores; the class is the module.
-- Rule.Layout: include/rule/shm.hpp, a rule and its bytes in the block, `nextRule`.
-- Rule.Shm: src/rule/shm.cpp, insertion and deletion; the mutex makes each call one step.
-- Rule.Evaluate: src/rule/shm.cpp, `Evaluate`.
-- Bookkeeping.Mappings: src/bookkeeping/ethmappings.cpp.
-- Bookkeeping.Peer: src/bookkeeping/peer.cpp. A list of heap records is a list, and a pointer into it
--   an index.
-- Server, Server.Resolve, Server.Receive: src/dns/server.cpp. What is sent is appended to a list.
-- Bookkeeping.Latency: the moving average of an upstream server's times, in words of 64 bits.
-- Server.Invariant: the server as a whole, over any sequence of datagrams, raw frames and edits.
--   Server.Known: a client's frame, and the request that follows. Server.Asking, Server.Delivery: a
--   request on its way upstream, and its answer on the way back.
-- Text: src/util.cpp, addresses as text; a text is the list of its bytes, and a regular expression a
--   value with a matcher. A call that may throw has an outcome `Try`.
-- Parser: src/rule/parse.cpp, the commands that edit the rules; Parser.Show and Parser.Commands are also
--   `operator<<` and `operator>>` of src/rule/shm.cpp. `Parse` and `operator>>` call each other: the
--   loop over lines takes `Parse` as an argument. Parser.Saved, Parser.Reload: what `save` writes, as
--   `load` reads its lines.
-- Startup: src/config.cpp, `initUpstreamServers` and `loadRules`; Startup.Options: src/args.cpp;
--   Startup.Run: src/daemon.cpp and app/main.cpp, up to the event loop. Startup.Asked: the servers that
--   the started program asks.
-- System.Interfaces, System.Adapters: include/net/if.hpp with src/unix/unixif.cpp and
--   src/win32/win32if.cpp; a pointer into a list of the system is the list from there.
-- System.Process: src/unix/unixdaemon.cpp, the forks, the PID file and the signals.
-- System.Registry: src/win32/registry.cpp and win32config.cpp.
-- System.Service: src/win32/service.cpp and win32daemonrunner.cpp, two threads as sequences of steps.
-- Tests: the theorems at concrete values.
--
-- Bounds and fuel. A byte is a number, and every store into a packet buffer takes it modulo 256;
-- counters of an upstream server wrap at 2^32; the packet buffer has 2267 bytes, the block of rules
-- 8192. The loop of `ReadLabel` runs on the fuel `label_fuel`, which covers five jumps with every byte
-- of the packet between two of them. The loop of `GetNewId` has no bound in the program, since it waits
-- for the generator; its fuel is a parameter, and the draws are a stream. The fuel of `Parse` bounds how
-- deep files of commands load files; a command that is no `load` needs 1. The machine is little-endian,
-- with enums of four bytes, and of 64 bits.
--
-- Parameters: endpoints with their comparison, port and address bytes (the network library), the
-- SHA-256 functions (taken from another project), the draws of the random generator, the time, what
-- `new` leaves in a record, what local variables hold before they are set, the conversions of IP
-- addresses, what the option library and the property tree find, the files by name, and what fork, chdir, the
-- interface lists and the registry answer.
--
-- Not modelled: the opening of the sockets and their event loop, the daemon class and the dispatcher
-- of Windows, logging (also to the log file), help texts, and the rate limit of a log message: input and output around the
-- core. The copies of other projects' code are called as parameters.
pub mod Common
pub mod Net
pub mod Dns
pub mod Rule
pub mod Bookkeeping
pub mod Server
pub mod Text
pub mod Parser
pub mod Startup
pub mod System
pub mod Tests
