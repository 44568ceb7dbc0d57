-- ===== src/NetworkOps/Keeping.antt =====
-- Requests to a handler, and the identifiers in its file.
use ur_webif.Base.{List, Bytes, codes, ◌≢◌, ◌⊎◌}
use ur_webif.Run.{Call, Triple}
use ur_webif.Json.{JsonLibrary, JsonLaws}
use ur_webif.NetworkOps.Kind.{Kind}
use ur_webif.NetworkOps.Store.{Store, World}
use ur_webif.NetworkOps.Documents.{Valid, Emptied}

-- The file can be read, and each of its entries has an identifier.
pub record Readable {J : Type 0} (lib : JsonLibrary J) (key : Bytes) (s : Store J) : Type 0 where
  pub ids : List Bytes
  pub valid : Valid lib key ids s

-- The file can be read so, or was emptied by a document that cannot be written as text.
abbrev pub Standing : {J : Type 0} → JsonLibrary J → Bytes → Store J → Type 0
Standing lib key s = Readable lib key s ⊎ Emptied lib s

module _ {J : Type 0} (lib : JsonLibrary J) (laws : JsonLaws lib) (kind : Kind)
    (other : codes "last_modified" ≢ kind.key) (w : World) where
  -- Whether the call returns or throws, the file stays as it was.
  abbrev Keeps : {A : Type 0} → Call (Store J) A → Type 0
  Keeps m = Triple (Standing lib kind.key) m (Standing lib kind.key) (Standing lib kind.key)

  -- The call may change or empty a file that can be read.
  abbrev Changes : {A : Type 0} → Call (Store J) A → Type 0
  Changes m = Triple (Readable lib kind.key) m (Standing lib kind.key) (Standing lib kind.key)
