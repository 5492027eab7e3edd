-- ===== src/Client/Round/Sign/Honest.antt =====
-- The client's checks of client/src/round/sign.rs, on the PSBT of coordinator/src/bitcoin/tx.rs.
use blindjoin.Prelude.Eq.{nat_eq, bytes_eq}
use blindjoin.External.{External}
