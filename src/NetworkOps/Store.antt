-- ===== src/NetworkOps/Store.antt =====
-- The document of a handler and its file: load…, save…, saveJsonToFile.
use ur_webif.Base.{ℕ, Bool, true, false, Option, none, some, [], Bytes, if◌then◌else◌}
use ur_webif.Run.{Call, returns, throws, ◌>>=◌, ◌>>◌, pure, gets, modify}
use ur_webif.Json.{Attempt, done, threw, attempt, JsonLibrary}

-- The member with the data, and the text of the file if it can be opened.
pub record Store (J : Type 0) : Type 0 where
  pub document : J
  pub file : Option Bytes

-- The time stamps of a call in the order of their use, the time of the answer in seconds, and
-- whether the file opens for writing.
pub record World : Type 0 where
  pub created : Bytes
  pub modified : Bytes
  pub seconds : ℕ
  pub can_write : Bool

module _ {J : Type 0} (lib : JsonLibrary J) where
  abbrev pub loaded : Store J → J × Attempt (Unit {0}) → Call (Store J) (Unit {0})
  loaded s (value, done u) t = returns u (record s { document = value })
  loaded s (value, threw e) t = throws e (record s { document = value })

  unfoldable pub load : Call (Store J) (Unit {0})
  load s = elim s.file [
    | none ↦ returns tt s
    | some content ↦ loaded s (lib.read_from content s.document) s
  ]

  -- A file that is opened is empty until the text is written; an exception of `dump` is caught.
  abbrev saved : Store J → Attempt Bytes → Call (Store J) Bool
  saved s (done content) t = returns true (record s { file = some content })
  saved s (threw e) t = returns false (record s { file = some [] })

  unfoldable pub save : World → Call (Store J) Bool
  save w s = if w.can_write then saved s (lib.dump s.document) s else returns false s

  -- `data[key]`
  unfoldable pub document_member : Bytes → Call (Store J) J
  document_member key = do
    document ← gets λ s. s.document
    (value, document') ← attempt (lib.member document key)
    modify λ s. record s { document = document' }
    pure value

  -- `data[key] = value`
  unfoldable pub set_member : Bytes → J → Call (Store J) (Unit {0})
  set_member key value = do
    document ← gets λ s. s.document
    document' ← attempt (lib.assign document key value)
    modify λ s. record s { document = document' }
