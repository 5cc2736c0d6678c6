-- ===== src/Http/Chunked/Room.antt =====
-- The room that `ParseChunkedMsgBody` makes for chunks that announce the length of their data.
use ip_utils.ErrorHandler.{ErrorHandler}
