-- ===== src/Compression.antt =====
-- compression.c: the checksum and the LZSS compression of kernel caches and mkext archives.
pub mod Checksum
pub mod Decode
pub mod Bounds
pub mod Format
pub mod Units
pub mod Register
pub mod Stream
pub mod RoundTrip
mod Tests
