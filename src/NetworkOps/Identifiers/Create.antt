-- ===== src/NetworkOps/Identifiers/Create.antt =====
-- A new entry in the file of a handler.
use ur_webif.NetworkOps.Kind.{Kind}
use ur_webif.NetworkOps.Store.{Store}
