-- ===== src/Driver.antt =====
-- 22-Lab3-malloclab/mdriver.c: the driver that replays traces of requests on the allocator, by the
-- parts of the file.
pub mod Ranges
pub mod Trace
pub mod Valid
pub mod Replay
pub mod Libc
pub mod Bytes
pub mod Accept
pub mod Reading
mod Tests
