-- ===== src/Coordinator/Api/Tx/Same.antt =====
-- The transaction that coordinator/src/api/handlers.rs shows, against that of coordinator/src/round/signing.rs.
use blindjoin.External.{External}
