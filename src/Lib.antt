-- ===== src/Lib.antt =====
-- A verification library for telesthete, an encrypted overlay of peers that share a band, and
-- telesthitium, its relay hub (both under rust/).
--
-- A peer seals messages into packets (crypto.rs, framing.rs). Packets of type Channel carry a
-- reliable connection (channel.rs) whose frames carry the chunks of messages (wire/fragment.rs);
-- packets of type Stream carry media behind a small header (wire/stream.rs), some with a
-- descriptor of a shared buffer (wire/dmabuf.rs). A hub reads only the header of a packet and
-- relays it to the peers of its band (telesthitium's frame.rs and registry.rs). A board is a map
-- that all peers of a band replicate (board.rs). Hubs relay frames to each other over links
-- (federation.rs), and peers find each other by datagrams (discovery.rs).
--
-- The files, each with the code that it models:
--   Crypto: rust/telesthete/src/crypto.rs. The AEAD and the key derivation are the parameters
--     Aead and Kdf; what is asked of an AEAD is the record IsAead: what was sealed is opened again,
--     only what was sealed opens, and the tag adds 16 bytes.
--   Framing: rust/telesthete/src/framing.rs, and route_info of rust/telesthitium/src/frame.rs;
--     Framing.Hex: band_hex and band_from_hex of that file.
--   Wire.StreamHeader, Wire.Dmabuf: rust/telesthete/src/wire/stream.rs and dmabuf.rs.
--   Wire.Fragment, Wire.Reassembler: rust/telesthete/src/wire/fragment.rs. `feed` of the code is
--     `feed` here, cut into the functions that its sections are.
--   Channel.Frame, Channel: ChannelFrame and ChannelCore of rust/telesthete/src/channel.rs, one
--     function per method.
--   Replay: the inbound decisions of ChannelHub in channel.rs and of StreamHub in stream.rs.
--   Drop.Sender, Drop.Receiver, Drop.Stale, Drop.Tasks: rust/telesthete/src/drop_channel.rs. serde_json
--     is the parameter Json; what is asked of it, that it reads what it wrote, is the record IsJson.
--     Drop.Exchange puts the two sides together over a link that loses nothing.
--   Transport: rust/telesthete/src/transport.rs: keys, sequence numbers, sealing and opening.
--   Control: the task of ControlChannel in rust/telesthete/src/control.rs, on the state that it
--     shares with the transport; Control.Handshake is about both endpoints of a greeting.
--   Registry, Registry.Budget: rust/telesthitium/src/registry.rs.
--   Channel.Connection: the rounds of run_connection in rust/telesthete/src/channel.rs.
--   Board: BoardCore of rust/telesthete/src/board.rs, over any type of values.
--   Board.Exchange: BoardEndpoint and run_board_task of that file; serde_json is the parameter Json.
--   Discovery: rust/telesthete/src/discovery.rs, the codec and the receiving task.
--   Band: rust/telesthete/src/band.rs, the options and the eviction of dead peers.
--   Federation: rust/telesthitium/src/federation.rs: the messages of a link, its writer, its reader
--     and its advertisements, on the Registry.
--   Federation.Setup: FedConfig of that file.
--   Config: rust/telesthitium/src/config.rs. An environment is a function from names to texts, and
--     Base.Str has the methods of `str` that are used on them.
--   Base: numbers, bytes, texts, lists, maps and results that these share.
--
-- Bytes are numbers; that they are below 256 is a hypothesis where it matters. A method that
-- changes its object is a function from the old state to the new one. `Instant::now()` and random
-- ids are arguments, and `now` may be anything. HashMap, BTreeMap and HashSet are association
-- lists. A failed assertion is a value: `panic`, `none` or the field `panicked`. Arithmetic on
-- 64-bit sequence numbers wraps as in a release build; a theorem that needs no wrap-around says so.
--
-- Loops recurse on a list, or on fuel: making room takes the number of partial messages and one,
-- draining the reorder buffer its length; each round takes an entry away. A run of missing chunks is
-- split in at most as many rounds as it has chunks. The exchange of a drop takes one frame of the
-- receiver for each chunk at most, and two more.
--
-- Not modelled: sockets, tasks and timers of the async runtime, the Unix-socket transport, the
-- servers of the hub, and the code that only hands packets to endpoints.
pub mod Band
pub mod Base
pub mod Board
pub mod Channel
pub mod Config
pub mod Control
pub mod Crypto
pub mod Discovery
pub mod Drop
pub mod Federation
pub mod Framing
pub mod Registry
pub mod Replay
pub mod Transport
pub mod Wire
