-- ===== src/Queue/Endings/Superseded.antt =====
-- FailScan and CancelScan of a scan that another scan has superseded.
use driftd.Redis.{Redis}
