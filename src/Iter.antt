-- ===== src/Iter.antt =====
-- The Iterator of iter.go: a window [head, tail) of a byte buffer over an optional io.Reader.
--
-- An io.Reader is the list of what its Read calls will return, each the bytes put into the buffer
-- and an error; past the end of the list Read returns 0 and io.EOF. The fields cfg and Attachment,
-- which no function here reads, are left out. A read of buf outside its bounds panics in Go; the
-- loops over [head, tail) are written over `window`, which is that slice whenever tail is at most
-- len(buf).
pub mod Defs
pub mod View
pub mod Load
pub mod Token
pub mod Report
pub mod Peek
pub mod Rounds
