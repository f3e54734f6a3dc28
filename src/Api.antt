-- ===== src/Api.antt =====
-- go/abstraction/identity/api/rec.go: the text of the API's records: JSON strings, the words of the
-- proof ladder, and the two records. A text is a byte string. The reader's buffer and position are
-- the bytes that stay to be read, beside the length of the whole.
pub mod Write
pub mod Utf8
pub mod Read
pub mod Strings
pub mod Words
pub mod Records
pub mod RoundTrip
pub mod Decoded
pub mod Canonical
pub mod Failure
