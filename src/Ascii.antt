-- ===== src/Ascii.antt =====
-- memcached.c: the text protocol. A command line is the list of its bytes before the terminating
-- zero.
pub mod Tokens
pub mod Time
pub mod Numbers
pub mod Conn
pub mod Update
pub mod Choice
pub mod Listing
pub mod Get
pub mod Arithmetic
pub mod Commands
pub mod Flush
pub mod Buffer
mod Tests
