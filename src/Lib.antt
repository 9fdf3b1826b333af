-- ===== src/Lib.antt =====
-- Verification of maja, a library that parses and crafts network packets.
--
-- The parts, and the files that model them:
--   src/packet/utils/checksum.rs        Checksum: the Internet checksum and the pseudo headers.
--   src/packet/utils/field.rs           Field: typed fields inside of byte slices.
--   src/packet/layer, src/capture/link_type.rs
--                                       Protocol: the markers, EtherType, IpProtocol, LinkType.
--   src/packet.rs (ParseContext)        Context: what every parser works on. Outcome is the invariant
--                                       of a parser, Require, Rules and Within have a rule for each way
--                                       to compose them.
--   src/packet/layer/*.rs (parse)       Layers: Link, Ip and Transport; each parser takes the parsers
--                                       it calls as a parameter.
--   ProtocolExt::parse                  Parse: the parsers tied into one another, and Total: they end.
--   src/packet.rs (Packet)              Packet: try_parse, the link types, the lookup of layers.
--   src/packet/layer/tcp/option.rs, src/packet/layer/ip/v4/option.rs
--                                       Options: the iterators over options.
--   src/packet/layer (viewers)          Validate: the checksum methods of the viewers.
--   src/capture/format/pcap.rs, src/capture/endian.rs
--                                       Capture, Capture.Pcap: the headers, Reader and Writer of PCAP
--                                       captures.
--   src/capture/format/pcapng.rs        Capture.Pcapng: the parsers of blocks in Section and Blocks, and the
--                                       reader over slices in Reader, with what it does in Decided, Bodies,
--                                       Progress and Scan. Stream is the reader over a stream, and
--                                       Blockwise, Streamed and Agree compare the two.
--   src/capture.rs                      Capture.Sniffed: the detection of the format of a capture.
--   tools/maja-reordercap/src/main.rs   Reorder: the scan, the sort and the output of PCAP captures.
--   tools/maja-mergecap/src/map, src/map.rs there
--                                       Mapping: the rewriting of addresses. Pool, Entry and Sequence are
--                                       the pools, the rules and the walks; Session and Hash are what
--                                       identifies a packet; Alloc is an allocation table, and Flow the
--                                       flow map, with what it answers again in Later, Settles and Replies,
--                                       that it does not panic in Returns and Fresh, and that a datagram
--                                       keeps its targets in Fragments. Envelope and Segment are what is
--                                       read of a packet and written into it, Fix the checksums, Direct
--                                       the direct maps, and Rewriter all of these.
--   src/packet/craft.rs                 Craft: stacks of layers, measured and written. Laws is what a
--                                       layer promises, Built, Stack, Theorems and Compose are what
--                                       the stack makes of it.
--   src/packet/layer/*/craft.rs         Craft.Raw, Udp, Ipv4, Tcp, Echo: the builders.
--   src/packet/flow.rs                  Flow: symmetric and asymmetric flow ids.
--
-- A packet is parsed by a chain of calls: a parser asks the context for its header (`require`),
-- records its layer (`push_layer`), and hands the rest to a child (`parse_child_with`), which falls
-- back to a raw layer where the child fails. A parser is a function from the context to a result and
-- the context that it leaves, also on an error. Bytes are numbers below 256, slices are lists, `usize`
-- has 64 bits, and additions that the source checks or saturates do so here.
--
-- The parsers call one another without a bound in the source. Here they run on fuel; one unit for
-- each byte of the packet and one more is enough, since every parser that calls another one has taken
-- a header of at least one byte. The label stack of MPLS is a loop with its own fuel, likewise enough.
-- Running out of fuel is the error `stuck`, which the crate does not have, and which never arises.
--
-- A slice that is out of bounds in the PCAPNG readers is the result `panic`, and so is an overflow,
-- as in a build that checks for it. Their loops run on one unit of fuel for each byte, which is
-- enough, since an option takes four bytes and a block twelve; running out is the result `stuck`.
--
-- The markers of a caller and their parsers are the parameter `custom`. `WellBehaved` states what is
-- expected of them: over parsers that keep to the invariant they keep to it, and they take at least
-- one byte before they call another parser.
--
-- The crates ipnet and rand are parameters of the mapping: `Networks` and `InRange` state what it relies
-- on. A hash map is the list of what was inserted. Where the mapping would panic, it gives `none`. What
-- is written into a packet is written at the offsets of its layers, which lie in it, as those of a parse.
--
-- Not modelled: logging and Display, the viewers beyond the fields that the parsers read and their
-- checksum methods, the reader of PCAP captures over a stream, and the tools other than reordercap and
-- the address mapping of mergecap, of which the sharing of tables between files and the configuration
-- are left out.
-- A stream of PCAPNG is the bytes that it still gives, and its only failure is their end.
pub mod Base
pub mod Checksum
pub mod Field
pub mod Protocol
pub mod Reorder
pub mod Mapping
pub mod Context
pub mod Craft
pub mod Layers
pub mod Parse
pub mod Packet
pub mod Flow
pub mod Validate
pub mod Options
pub mod Capture
