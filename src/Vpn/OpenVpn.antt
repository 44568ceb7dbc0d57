-- ===== src/Vpn/OpenVpn.antt =====
-- parseConfigLines, extractRemoteServer, extractRemotePort and determineProtocol of OpenVPNParser.
pub mod Lines
use ur_webif.Base.{
  ℕ, suc, ◌+◌, ◌==◌, Bool, true, false, not, ◌&&◌, ◌||◌, Option, none, some, List, [], ◌∷◌, ◌++◌,
  Bytes, codes, find?, take, drop, is_empty, if◌then◌else◌, insert, Assoc, ℤ, pos, getlines,
  skip_while,
}
use ur_webif.Vpn.Detect.{contains}
use ur_webif.Vpn.Endpoint.{is_space, port_or}

abbrev is_comment : Bytes → Bool
is_comment [] = false
is_comment (c ∷ cs) = c == b'#'

-- `line.substr(line.find(":") + 1)`, where `npos + 1` is 0.
abbrev behind_colon : Bytes → Bytes
behind_colon line = elim (find? (codes ":") line) [ none ↦ line | some i ↦ drop (suc i) line ]

unfoldable pub add_directive : Bytes → Assoc Bytes → Assoc Bytes
unfolding find? insert
add_directive line config = elim (find? (codes " ") line) [
  | some i ↦ insert (take i line) (drop (suc i) line) config
  | none ↦ insert line [] config
]

unfoldable pub add_line : Bytes → Assoc Bytes → Assoc Bytes
unfolding find? contains insert add_directive
add_line line config =
    if is_empty line || is_comment line && not (contains (codes "Profile") line)
    then config
    else if is_comment line
    then insert (codes "# Profile") (behind_colon line) config
    else add_directive line config

unfoldable pub add_lines : List Bytes → Assoc Bytes → Assoc Bytes
unfolding add_line
add_lines [] config = config
add_lines (line ∷ lines) config = add_lines lines (add_line line config)

unfoldable pub parse_config_lines : Bytes → Assoc Bytes
unfolding add_lines
parse_config_lines content = add_lines (getlines b'\n' content) []

-- `iss >> word`: the word and the rest of the stream.
abbrev word_with : ℕ → Bytes × Bytes → Bytes × Bytes
word_with c (word, rest) = (c ∷ word, rest)

unfoldable pub take_word : Bytes → Bytes × Bytes
take_word [] = ([], [])
take_word (c ∷ cs) =
    let more = take_word cs in if is_space c then ([], c ∷ cs) else word_with c more

unfoldable pub next_word : Bytes → Bytes × Bytes
unfolding take_word
next_word s = take_word (skip_while is_space s)

unfoldable pub extract_remote_server : Bytes → Bytes
unfolding next_word
extract_remote_server remote_line = (next_word remote_line).0

unfoldable pub extract_remote_port : Bytes → ℤ
unfolding next_word
extract_remote_port remote_line =
    let port = (next_word (next_word remote_line).1).0 in
    if is_empty port then pos 1194 else port_or 1194 port

unfoldable pub determine_protocol : Bytes → Bytes
unfolding contains
determine_protocol content =
    if contains (codes "proto udp") content
    then codes "OpenVPN (UDP)"
    else if contains (codes "proto tcp") content
    then codes "OpenVPN (TCP)"
    else codes "OpenVPN"
