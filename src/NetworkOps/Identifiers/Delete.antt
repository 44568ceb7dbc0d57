-- ===== src/NetworkOps/Identifiers/Delete.antt =====
-- An entry taken out of the file of a handler.
use ur_webif.NetworkOps.Kind.{Kind}
use ur_webif.NetworkOps.Store.{Store}
