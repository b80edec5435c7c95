-- ===== src/Resp.antt =====
-- src/resp.c and include/resp.h: the request parser and the reply serializer.
pub mod Parse
pub mod Crlf
pub mod Bounds
pub mod Grows
pub mod Framing
pub mod Header
pub mod RoundTrip
pub mod Buffer
pub mod Words
pub mod Reply
mod Tests
