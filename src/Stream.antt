-- ===== src/Stream.antt =====
-- pkg/stream: the binary streams that the store's files are written and read with.
pub mod Writer
pub mod Reader
pub mod Varint
pub mod Fixed
pub mod RoundTrip
mod Examples
