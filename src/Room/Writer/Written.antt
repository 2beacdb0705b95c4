-- ===== src/Room/Writer/Written.antt =====
-- What the writer asks of the database, against what it was handed.
use crdt_server.Room.Writer.{Writer}
