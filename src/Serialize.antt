-- ===== src/Serialize.antt =====
-- Numbers as bytes (src/serialize.h): compact sizes, and integers of variable length. A stream is the
-- list of its bytes; `none` is the exception that a read throws, at the end of the stream too.
pub mod Compact
pub mod VarInt
mod Tests
