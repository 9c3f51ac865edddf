-- ===== src/ByteBuf.antt =====
-- gwcpp/base/ByteBuf.h and ByteBuf.cpp: the byte buffer with a reader and a writer position.
pub mod Data
pub mod Getters
pub mod Readers
pub mod Setters
pub mod Writers
pub mod Index
pub mod Search
pub mod Bytes
pub mod Hex
pub mod Fifo
pub mod Moves
pub mod Reads
pub mod Losses
pub mod Signed
