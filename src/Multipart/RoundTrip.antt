-- ===== src/Multipart/RoundTrip.antt =====
-- Bodies that a client writes, read back.
use ur_webif.Base.{
  ℕ, zero, suc, ◌+◌, ◌≤◌, true, false, none, some, List, [], ◌∷◌, ◌++◌, Bytes, codes, ◌≡◌, refl,
  sym, ap, ◌∙◌, find?, drop, take, length, is_empty, starts_with, drop_last_while, Bool-cases, inl,
  inr, if◌then◌else◌, Assoc, drop-length-append, take-length-append, length-append, arith,
}
use mathlib.Core.List.{append_assoc, append-nil}
use ur_webif.Multipart.Headers.{extract_header_value, parse_content_disposition}
use ur_webif.Multipart.Parser.{
  MultipartFile, MultipartField, param, MultipartParser, is_newline, headers_end, add_part,
  read_part, split_part, read_parts, parse_multipart_data, parse, skip_newline,
}
use ur_webif.Multipart.Newlines.{drop_last_while-kept, read_part-newlines}

abbrev pub line_end : Bytes
line_end = codes "\r\n"

abbrev blank_line : Bytes
blank_line = codes "\r\n\r\n"

-- The headers and the contents of a part, the last character of the contents apart.
pub record Entry : Type 0 where
  pub headers : Bytes
  pub front : Bytes
  pub last : ℕ

abbrev contents : Entry → Bytes
contents e = e.front ++ e.last ∷ []

abbrev pub print_entry : Entry → Bytes
print_entry e = e.headers ++ (blank_line ++ contents e)

-- Behind a delimiter: the remaining entries, each with the next delimiter, and the end.
abbrev print_rest : Bytes → List Entry → Bytes → Bytes
print_rest delimiter [] epilogue = epilogue
print_rest delimiter (e ∷ es) epilogue =
    line_end ++ ((print_entry e ++ line_end) ++ (delimiter ++ print_rest delimiter es epilogue))

abbrev pub print_body : Bytes → List Entry → Bytes → Bytes
print_body boundary es epilogue =
    let delimiter = codes "--" ++ boundary in delimiter ++ print_rest delimiter es epilogue

-- The needle is first found behind the text, whatever follows it.
abbrev pub EndsText : Bytes → Bytes → Type 0
EndsText needle text = (rest : Bytes) → find? needle (text ++ (needle ++ rest)) ≡ some (length text)

-- The contents do not end by a newline, and neither a blank line in the headers nor a delimiter in
-- the part comes too early.
pub record IsSound (delimiter : Bytes) (e : Entry) : Type 0 where
  pub last_kept : is_newline e.last ≡ false
  pub head : EndsText blank_line e.headers
  pub whole : EndsText delimiter (print_entry e ++ line_end)

abbrev pub AllSound : Bytes → List Entry → Type 0
AllSound delimiter [] = Unit
AllSound delimiter (e ∷ es) = IsSound delimiter e × AllSound delimiter es

-- Each entry with its headers, the blank line included, and its contents as they are.
abbrev add_all : List Entry → MultipartParser → MultipartParser
add_all [] p = p
add_all (e ∷ es) p = add_all es (add_part (e.headers ++ blank_line) (contents e) p)

-- The parameters of an entry's Content-Disposition.
abbrev params : Entry → Assoc Bytes
params e =
    parse_content_disposition
      (extract_header_value (e.headers ++ blank_line) (codes "Content-Disposition"))

abbrev filename_of : Entry → Bytes
filename_of e = param (codes "filename") (params e)

-- A file with the whole contents and their length.
abbrev file_of : Entry → MultipartFile
file_of e = record {
  field_name = param (codes "name") (params e);
  filename = filename_of e;
  content_type = extract_header_value (e.headers ++ blank_line) (codes "Content-Type");
  contents = contents e;
  size = length (contents e);
}

-- A field with the whole contents as the value.
abbrev field_of : Entry → MultipartField
field_of e = record { field_name = param (codes "name") (params e); value = contents e }

-- The entries with a file name.
abbrev pub files_of : List Entry → List MultipartFile
files_of [] = []
files_of (e ∷ es) = if is_empty (filename_of e) then files_of es else file_of e ∷ files_of es

-- The other entries.
abbrev pub fields_of : List Entry → List MultipartField
fields_of [] = []
fields_of (e ∷ es) = if is_empty (filename_of e) then field_of e ∷ fields_of es else fields_of es

add_all-lists :
    (es : List Entry) (p : MultipartParser)
    → add_all es p
      ≡ (record p { files = p.files ++ files_of es; fields = p.fields ++ fields_of es })
unfolding add_part
add_all-lists [] p = rw (append-nil p.files, append-nil p.fields) refl
add_all-lists (e ∷ es) p = elim (Bool-cases (is_empty (filename_of e))) [
  | inl plain ↦ rw plain (
      add_all-lists es (record p { fields = p.fields ++ field_of e ∷ [] })
      ∙ rw (append_assoc p.fields (field_of e ∷ []) (fields_of es)) refl)
  | inr upload ↦ rw upload (
      add_all-lists es (record p { files = p.files ++ file_of e ∷ [] })
      ∙ rw (append_assoc p.files (file_of e ∷ []) (files_of es)) refl)
]

-- Cutting at the end of the second of three texts.
drop_two : (x y z : Bytes) → drop (length x + length y) (x ++ (y ++ z)) ≡ z
drop_two x y z =
    rw (sym (length-append x y), sym (append_assoc x y z)) (drop-length-append (x ++ y) z)

take_two : (x y z : Bytes) → take (length x + length y) (x ++ (y ++ z)) ≡ x ++ y
take_two x y z =
    rw (sym (length-append x y), sym (append_assoc x y z)) (take-length-append (x ++ y) z)

-- The text of an entry keeps its last character.
print_entry-kept :
    (e : Entry)
    → is_newline e.last ≡ false
    → drop_last_while is_newline (print_entry e) ≡ print_entry e
print_entry-kept e h =
    let same = append_assoc e.headers (blank_line ++ e.front) (e.last ∷ []) in
    ap (drop_last_while is_newline) (sym same)
    ∙ drop_last_while-kept is_newline (e.headers ++ (blank_line ++ e.front)) e.last h
    ∙ same

split_part-print :
    (delimiter : Bytes) (e : Entry) (p : MultipartParser)
    → IsSound delimiter e
    → split_part (print_entry e) p ≡ add_part (e.headers ++ blank_line) (contents e) p
unfolding split_part headers_end
split_part-print delimiter e p sound =
    rw (split_part, headers_end, sound.head (contents e))
      (rw (take_two e.headers blank_line (contents e), drop_two e.headers blank_line (contents e))
        refl)

read_part-print :
    (delimiter : Bytes) (e : Entry) (p : MultipartParser)
    → IsSound delimiter e
    → read_part (print_entry e ++ line_end) p ≡ add_part (e.headers ++ blank_line) (contents e) p
unfolding read_part
read_part-print delimiter e p sound =
    read_part-newlines (print_entry e) line_end p refl
    ∙ ap (λ part. split_part part p) (print_entry-kept e sound.last_kept)
    ∙ split_part-print delimiter e p sound

read_parts-print :
    (delimiter : Bytes) (es : List Entry) (epilogue : Bytes) (fuel : ℕ) (p : MultipartParser)
    → AllSound delimiter es
    → find? delimiter (skip_newline epilogue) ≡ none
    → length es + 1 ≤ fuel
    → read_parts fuel delimiter (print_rest delimiter es epilogue) p ≡ add_all es p
unfolding read_parts
read_parts-print delimiter es epilogue zero p sound end h = ground (arith, h)
read_parts-print delimiter [] [] (suc fuel) p sound end h = refl
read_parts-print delimiter [] (c ∷ epilogue) (suc fuel) p sound end h = rw end refl
read_parts-print delimiter (e ∷ es) epilogue (suc fuel) p sound end h =
    let text = print_entry e ++ line_end in
    let rest = print_rest delimiter es epilogue in
    rw (sound.0.whole rest) (
      rw (take-length-append text (delimiter ++ rest), drop_two text delimiter rest)
        (rw (read_part-print delimiter e p sound.0)
          (read_parts-print delimiter es epilogue fuel _ sound.1 end (omega (arith, h)))))

starts_with-append : (needle rest : Bytes) → starts_with needle (needle ++ rest) ≡ true
unfolding starts_with
starts_with-append [] rest = refl
starts_with-append (n ∷ ns) rest = ground (arith, starts_with-append ns rest)

-- There are rounds enough, since each part has a character at least.
length-print_rest :
    (delimiter : Bytes) (es : List Entry) (epilogue : Bytes)
    → length es ≤ length (print_rest delimiter es epilogue)
length-print_rest delimiter [] epilogue = omega arith
length-print_rest delimiter (e ∷ es) epilogue =
    let text = print_entry e ++ line_end in
    let rest = print_rest delimiter es epilogue in
    omega (
      arith,
      length-append text (delimiter ++ rest),
      length-append delimiter rest,
      length-print_rest delimiter es epilogue,
    )

find?-start :
    (needle rest : Bytes) → is_empty needle ≡ false → find? needle (needle ++ rest) ≡ some 0
unfolding find?
find?-start [] rest h = ground (arith, h)
find?-start (n ∷ ns) rest h = rw (starts_with-append (n ∷ ns) rest) refl

parse_multipart_data-found :
    (body : Bytes) (p : MultipartParser)
    → find? (codes "--" ++ p.boundary) body ≡ some 0
    → parse_multipart_data body p ≡ (
      true,
      read_parts
          (length body)
          (codes "--" ++ p.boundary)
          (drop (0 + length (codes "--" ++ p.boundary)) body)
          p,
    )
unfolding parse_multipart_data
parse_multipart_data-found body p h = rw (parse_multipart_data, h) refl

-- For a parser with a boundary, a body of entries between its delimiters, and an end in which no
-- delimiter is found: parse succeeds, and adds the entries in their order, those with a file name in
-- their headers to the files, the others to the fields, each with its name and its contents
-- unchanged. The contents of an entry have a character at least and do not end by a carriage return
-- or a line feed, its headers have no blank line, and no delimiter begins in it.
pub parse-print :
    (p : MultipartParser) (es : List Entry) (epilogue : Bytes)
    → is_empty p.boundary ≡ false
    → AllSound (codes "--" ++ p.boundary) es
    → find? (codes "--" ++ p.boundary) (skip_newline epilogue) ≡ none
    → parse (print_body p.boundary es epilogue) p
      ≡ (true, record p { files = p.files ++ files_of es; fields = p.fields ++ fields_of es })
unfolding parse
parse-print p es epilogue some_boundary sound end =
    let delimiter = codes "--" ++ p.boundary in
    let rest = print_rest delimiter es epilogue in
    rw (parse, some_boundary)
      (parse_multipart_data-found (delimiter ++ rest) p (find?-start delimiter rest refl)
        ∙ ap (λ q. (true, q))
            (ap (λ r. read_parts (length (delimiter ++ rest)) delimiter r p)
                (drop_two [] delimiter rest)
              ∙ read_parts-print delimiter es epilogue (length (delimiter ++ rest)) p sound end (
                  omega
                    (arith, length-append delimiter rest, length-print_rest delimiter es epilogue))
              ∙ add_all-lists es p))
