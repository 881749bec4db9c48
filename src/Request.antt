-- ===== src/Request.antt =====
-- `Request` of include/fastcgi3/request.h and library/request.cpp. The children model how a request
-- is stored in a buffer and read back.
pub mod State
pub mod Attach
pub mod Serialize
pub mod Restore
pub mod Writes
pub mod Stored
pub mod Reads
pub mod Windows
pub mod Entries
pub mod ReadBack
pub mod RoundTrip
pub mod Lookups
pub mod LookedUp
pub mod Numbers
