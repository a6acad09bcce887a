-- ===== src/Encoding.antt =====
-- pkg/encoding: the codecs of time series and of offsets.
pub mod Xor
pub mod Tsd
pub mod Delta
mod Examples
