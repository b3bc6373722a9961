-- ===== src/Serialize.antt =====
-- kextd_serialize_kextload.c: the lock that serializes the clients that load kexts, and the
-- kernel's requests that wait for it.
pub mod Lock
pub mod Holder
mod Tests
