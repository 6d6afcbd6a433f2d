-- ===== src/PacketForward.antt =====
-- packet-forward/: the two forwarding exercises, by destination tables and by match rules.
mod Texts
mod Hops
pub mod Forward
pub mod Sdn
pub mod Routes
mod Tests
pub use Texts.{TextDict, get, dropped_mark}
unfoldable pub use Hops.{hop_loop}
