-- ===== src/Files/Path.antt =====
-- src/file_server.cpp: sanitizePath, and the path that serveFileWithState makes of it.
pub mod Traversal
use ur_webif.Base.{
  ℕ, zero, suc, ◌+◌, ◌-◌, Bool, true, false, Option, none, some, List, [], ◌∷◌, ◌++◌, Bytes, codes,
  eqb, length, take, drop, find_from?, leb, ◌==◌, if◌then◌else◌, skip_while, ◌&&◌,
}

abbrev pub dot_dot : Bytes
dot_dot = codes "../"

-- `sanitized.erase(pos, 3)`
abbrev pub erase_at : ℕ → Bytes → Bytes
erase_at pos s = take pos s ++ drop (pos + 3) s

-- `while ((pos = sanitized.find("../", pos)) != npos) sanitized.erase(pos, 3)` on fuel: each round
-- makes the text shorter.
unfoldable pub erase_loop : ℕ → ℕ → Bytes → Bytes
erase_loop zero pos s = s
erase_loop (suc fuel) pos s = elim (find_from? dot_dot s pos) [
  | none ↦ s
  | some next ↦ erase_loop fuel next (erase_at next s)
]

-- `if (length() >= 3 && substr(length() - 3) == "../") sanitized = substr(0, length() - 3)`
unfoldable pub drop_final : Bytes → Bytes
unfolding eqb
drop_final s =
    if leb 3 (length s) && eqb (drop (length s - 3) s) dot_dot then take (length s - 3) s else s

unfoldable pub sanitize_path : Bytes → Bytes
unfolding erase_loop find_from? drop_final
sanitize_path path =
    let relative = skip_while (λ c. c == b'/') path in
    drop_final (erase_loop (suc (length relative)) 0 relative)

-- `document_root_ + "/" + sanitized_path`
unfoldable pub full_path : Bytes → Bytes → Bytes
unfolding sanitize_path
full_path document_root requested_path = document_root ++ (b'/' ∷ sanitize_path requested_path)
