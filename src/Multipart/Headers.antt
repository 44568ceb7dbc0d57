-- ===== src/Multipart/Headers.antt =====
-- extractHeaderValue and parseContentDisposition.
use ur_webif.Base.{
  ℕ, ◌+◌, ◌==◌, Option, none, some, List, [], ◌∷◌, ◌++◌, Bytes, codes, find?, drop, take, length,
  skip_while, drop_last_while, is_blank, if◌then◌else◌, insert, Assoc, getlines,
}
use mathlib.Core.List.{reverse}

abbrev pub carriage_return : ℕ
carriage_return = 13

abbrev pub line_feed : ℕ
line_feed = 10

-- The text before the first occurrence of a character, if there is one.
unfoldable pub before : ℕ → Bytes → Option Bytes
unfolding find?
before c s = elim (find? (c ∷ []) s) [ none ↦ none | some i ↦ some (take i s) ]

unfoldable pub extract_header_value : Bytes → Bytes → Bytes
unfolding find? before
extract_header_value headers name =
    let search_name = name ++ codes ":" in
    elim (find? search_name headers) [
      | none ↦ []
      | some position ↦
          (let rest = skip_while is_blank (drop (position + length search_name) headers) in
            elim (before carriage_return rest) [
              | some value ↦ value
              | none ↦ elim (before line_feed rest) [ some value ↦ value | none ↦ rest ]
            ])
    ]

abbrev pub trim : Bytes → Bytes
trim token = drop_last_while is_blank (skip_while is_blank token)

-- A text of at least two characters that is in quotes is what stands between them.
abbrev inside : Bytes → Bytes → Bytes
inside [] whole = whole
inside (c ∷ back) whole = if c == b'"' then reverse back else whole

abbrev pub remove_quotes : Bytes → Bytes
remove_quotes [] = []
remove_quotes (c ∷ rest) = if c == b'"' then inside (reverse rest) (c ∷ rest) else c ∷ rest

unfoldable pub add_param : Bytes → Assoc Bytes → Assoc Bytes
unfolding find? insert
add_param token params = elim (find? (codes "=") token) [
  | none ↦ params
  | some i ↦ insert (take i token) (remove_quotes (drop (i + 1) token)) params
]

unfoldable pub add_params : List Bytes → Assoc Bytes → Assoc Bytes
unfolding add_param
add_params [] params = params
add_params (t ∷ ts) params = add_params ts (add_param (trim t) params)

-- The first token is the type, such as form-data.
abbrev pub but_first : List Bytes → List Bytes
but_first [] = []
but_first (t ∷ ts) = ts

unfoldable pub parse_content_disposition : Bytes → Assoc Bytes
unfolding getlines add_params
parse_content_disposition value = add_params (but_first (getlines b';' value)) []
