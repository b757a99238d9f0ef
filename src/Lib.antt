-- ===== src/Lib.antt =====
-- nl-wireguard: WireGuard interfaces over generic netlink (src/*.rs).
--
-- A configuration (`WireguardParsed`, with its peers `WireguardPeerParsed` and their allowed IPs) is
-- built into netlink messages and parsed back from them. A netlink attribute is limited to 64 KiB,
-- so a large peer is split into chunks and the chunks are spread over several messages; the replies
-- of a dump are coalesced again. The handle sends the messages one after the other and interprets
-- the replies. Errors keep the request, with its keys replaced by zeros.
--
-- The files and the code they model:
--   Error      src/error.rs: `ErrorKind`, `WireguardError` and its `new` (here `error_new`)
--   Redact     src/redact.rs; Redact/Secrecy says what hidden means
--   Key        src/parsed.rs: `decode_key`
--   Flags      the flag enums of src/parsed.rs and src/peer_parsed.rs
--   AllowedIp  src/peer_parsed.rs: `WireguardIpAddress`
--   Peer       src/peer_parsed.rs: `From<WireguardPeer>` (`parse_peer`), `remove`,
--              `merge_continuation`, `build`
--   Split      src/parsed.rs: `peer_chunks`, `take_allowed_ips_batch`
--   Device     src/parsed.rs: `From<WireguardMessage>` (`parse_message`),
--              `From<Vec<WireguardMessage>>` (`parse_messages`), `push_peer`, `iface_attribute`,
--              `device_attributes`, `build_message`
--   Messages   src/parsed.rs: `build_messages`, `build`
--   Debug      src/parsed.rs, src/peer_parsed.rs: the `Debug` implementations
--   Handle     src/handle.rs: `request`, `set`, `remove_peer`, `get_by_name`, `parse_nl_msg_stream`
--   Connection src/connection.rs: `new_connection_with_socket`, `new_connection`
--   Secrets    what two runs that differ in their keys have in common
--   Examples   examples/set_wireguard.rs, examples/get_wireguard_info.rs
-- Base has the shared names and lemmas, Packet the data types of the netlink-packet crates as far as
-- the source matches on them, UnitTests the unit tests of the source, Samples values of the
-- parameters, Tests the theorems at sample inputs.
--
-- Other crates are the record `Crates`, an instance argument of what calls them: base64, the buffer
-- lengths and constants of the packet crates, the iteration and collection of bit flags, the
-- renderings of foreign values. What they are assumed to do is in `Base64Laws`, `LengthLaws`,
-- `KeyLaws` and `FlagLaws`, which only the theorems take that need them. The genetlink handle with
-- the kernel behind it is a function from the requests so far, the current one last, to the outcome
-- of the current one; a stream of replies is the list of its items. A method of the handle returns
-- its result with the requests so far.
--
-- What the kernel does with a request is `Interface` in Split/Devices, a record of operations on an
-- abstract state with the laws that the splitting relies on; what the stream of a request yields
-- of a dump, of an acknowledgement and of an error is `Genetlink` in Connection; what derive(Debug)
-- generates is `Derived` in Debug.
--
-- A value that is mutated in a loop is passed through a fold. The loop of `peer_chunks` that takes
-- batches runs on fuel, the number of allowed IPs left: each batch takes one at least, so the fuel
-- is enough, as Split/While shows for the loop without fuel. Numbers are natural numbers: every
-- length is far below the 64 bits of `usize`, and the casts of seconds and nanoseconds and the
-- negation of an error code wrap as in code whose overflow is not checked. A panic of
-- `messages.remove(0)` is the value `none` of `Messages.build`.
--
-- Not modelled: log lines, the socket behind a connection, the tests against a running kernel, the
-- assertions of unit tests on what derive(Debug) or an emitting crate generates, and the
-- asynchronous scheduling, since each method awaits one request at a time.
pub mod Base
pub mod Packet
pub mod Crates
pub mod Error
pub mod Redact
pub mod Key
pub mod Flags
pub mod AllowedIp
pub mod Peer
pub mod Split
pub mod Device
pub mod Messages
pub mod Debug
pub mod Handle
pub mod Connection
pub mod Secrets
pub mod Examples
pub mod Samples
pub mod UnitTests
pub mod Tests
