-- ===== src/Packets.antt =====
-- crates/skysaga-proto/src: the wire types, and the packets made of them.
pub mod Fields
pub mod Types
pub mod Customisation
pub mod Creation
pub mod Inventory
pub mod Combat
pub mod Movement
pub mod Crafting
pub mod TodoList
pub mod Mail
pub mod Voxel
pub mod Interaction
pub mod Chat
pub mod Photo
pub mod Handshake
pub mod Transfer
pub mod Hotbar
pub mod Answers
pub mod Safety
pub mod RoundTrip
pub mod Tests
