-- ===== src/Archive.antt =====
-- kernelcache.c, mkext1_file.c and mkextunpack_main.c: compressed kernel caches and mkext archives.
pub mod Memory
pub mod Entry
pub mod Writer
pub mod Bounds
pub mod Stored
pub mod Added
pub mod Kexts
pub mod RoundTrip
pub mod Newest
pub mod Slice
pub mod SliceTrip
mod Tests
