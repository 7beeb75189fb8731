-- ===== src/Lib.antt =====
-- A model of the parts of the SkySaga server that put the game's messages on the wire, that take
-- what a client sends, that sign players in, that keep the players' inventories and the world that
-- they share, and that keep accounts and what is stored for them.
--
-- Bits (crates/skysaga-core/src/bits.rs): how wide a field with a declared maximum is. Bits/Widths
-- has the facts about the width.
--
-- BitStream (crates/skysaga-proto/src/bitstream.rs): BitStream/Writer is `BitWriter`, a buffer and
-- the number of bits in it, and BitStream/Reader is `BitReader`, the same with an offset. A write
-- is a function on writers; a read gives a result beside the new reader: a value, an error of the
-- source's, or `panic` where the source would index out of range. The reader keeps its place on an
-- error, as in the source. BitStream/Byte has the bits of a byte and the bytes of a word, and
-- BitStream/Utf8 is the check of the standard library's `from_utf8`. Writer/Contents takes a writer
-- as the list of bits written, Writer/Encodes and Writer/Fields say which bits each write appends,
-- Reader/Decodes and Reader/Fields what each read makes of them, and RoundTrip puts the two
-- together. RoundTrip/Copied, RoundTrip/Wide and RoundTrip/Aligned do so for the fields of 64 bits,
-- for long bits, and for bytes that start at a byte, whose bits depend on the position. Wire states
-- the results for single fields.
--
-- Packets (crates/skysaga-proto/src): Types is types.rs, Customisation is customisation.rs,
-- Creation and Inventory are packets/character_creation.rs and packets/inventory.rs, and Hotbar is
-- the packet of inventory.rs that carries an item of the crafting packets. Combat, Movement,
-- Crafting, TodoList, Mail, Voxel, Interaction, Chat, Photo, Handshake and Transfer are the files
-- of packets/ of those names, and Fields has the shapes that their fields share. An `encode` is a
-- write, a `decode` a read; where the caller reads the packet id first, `with_id` does so. Answers
-- lists fourteen packets that the server writes. A child RoundTrip says what is read back of each
-- packet, a child Safety that its decoder reads within the buffer.
--
-- Hash (crates/skysaga-core/src/hash.rs): the hash that stands for a name on the wire.
--
-- ClientPacket (crates/skysaga-game/src/lib.rs): `ClientPacket::parse`, the match on the packet's
-- id. ClientPacket/Sends lists what clients write for each packet, ClientPacket/Safety and
-- ClientPacket/RoundTrip are about what `parse` makes of any bytes, and of those.
--
-- State (crates/skysaga-state/src/lib.rs): the state that the auth, web and game servers share.
-- Types has its records, Common/Text what it uses of strings, Policy who may sign in, Saves what is
-- kept for each player, Accounts the sessions, Characters the characters, Queues the reservations
-- and the administrators' requests. An operation is a function on `AppState`: what a thread does
-- under the lock, and the report that it makes after it. The sink is the list of the changes given
-- to it, and a fresh uuid is an argument of the operation that draws it. A `HashMap` is an
-- association list, Common/Table. Stored describes what the storage keeps and what a change makes
-- of it; Steps are the calls in any order. The source reports a change after it has released the
-- lock, so Threads has the calls and their reports as turns of their own, in any order; Effects and
-- Replay compare what is reported with what is stored, and Overtaken has a run whose reports change
-- places. Sound, Invariant and Reached are about what holds in every state. Sessions, Reservations,
-- Kept, Names and Lifecycle follow single operations further, and Spelled says which names are the
-- same. Loading stored state at the start is no step.
--
-- Inventory (crates/skysaga-world/src/inventory.rs): the slots of all owners, the stacks in them,
-- and the next entity id. A `HashMap` is a function into options. An operation that sends effects
-- returns them in their order beside the new state. Inventory itself has the state and the simple
-- operations, Inventory/Moves those that players ask for. Inventory/Slots, Inventory/Rucksack and
-- Moves/Cases describe single steps; Sound says what well-formed inventories are, Sound/Kept,
-- Sound/Opened and Sound/Loose that they stay so, and Steps takes the operations in any order;
-- Conserves counts what merges and splits move.
--
-- Salvage (crates/skysaga-game/src/salvage.rs): the draw of the components that a dismantled item
-- gives back, turn by turn. Salvage/Totals counts them.
--
-- ByteReader (crates/skysaga-core/src/reader.rs): the cursor over a packet's bytes.
-- ByteReader/Words has what its reads give, and ByteReader/Chains what several of them give.
--
-- FixedStr (crates/skysaga-core/src/fixed_str.rs): strings in fields of a fixed width. A string is
-- the list of its characters. FixedStr/Lossy writes out the standard library's lossy decoding as a
-- machine that is fed byte after byte; Decoded and Boundaries compare it and the way back to a
-- character's boundary with the encoding, RoundTrip has what comes of it for a field.
--
-- Auth (crates/skysaga-auth/src/protocol.rs): the two packets of a login. A slice out of range is a
-- result of its own, `panic`. Auth/Server (crates/skysaga-auth/src/server.rs) is a connection: a
-- function from all the bytes that the peer sends before it closes, the number of bytes that it
-- accepts before a write fails, and the state of State, to how the connection ends, with the bytes
-- written back, and the state after; the token that the state draws is an argument. Auth/RoundTrip,
-- Auth/Server/Replies, Auth/Server/Outcomes and Auth/Safety are about what is read back, what is
-- answered, what becomes of a connection, and what never happens.
--
-- World (crates/skysaga-game/src/world.rs): what players change in a world that they share. A call
-- is a function on `World`, and since it holds the lock to its end, World/Calls takes the calls of
-- all players as one list. A `HashMap` is an association list, a device stands for its entity with
-- the one position that is read of it, and the data file that names are looked up in is its lookup.
-- Ids, Replay and Claims are about the ids given out, what is stored of the blocks, and what only
-- one player gets.
--
-- Numbers are natural numbers. Where the source's u32 can wrap, the model takes the remainder; the
-- ids of entities are taken not to have run out where a theorem says so. The loops of the writer
-- and the reader count down the bits or bytes left to do, so no fuel can run out; only the bits of
-- a u32 or a byte are counted with fuel, of 32 and 8 halvings, and that is all the bits there are.
--
-- Not modelled: the entities' components, the game server's handlers and how an island is built
-- from the data files, the database, the web and chat servers, the RakNet library and the bindings
-- to it. Logging is left out.
pub mod Common
pub mod Bits
pub mod BitStream
pub mod Packets
pub mod Inventory
pub mod Salvage
pub mod ByteReader
pub mod State
pub mod FixedStr
pub mod Hash
pub mod ClientPacket
pub mod Auth
pub mod World
