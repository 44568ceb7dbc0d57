-- ===== src/Multipart/Parser.antt =====
-- The constructor, parse and the queries of MultipartParser.
use ur_webif.Base.{
  ℕ, zero, suc, ◌+◌, Bool, true, false, ◌==◌, ◌||◌, Option, none, some, List, [], ◌∷◌, ◌++◌, Bytes,
  codes, find?, eqb, drop, take, length, is_empty, is_some, drop_last_while, if◌then◌else◌, lookup,
  Assoc,
}
use ur_webif.Multipart.Headers.{
  carriage_return, line_feed, before, remove_quotes, extract_header_value,
  parse_content_disposition,
}

pub record MultipartFile : Type 0 where
  pub field_name : Bytes
  pub filename : Bytes
  pub content_type : Bytes
  pub contents : Bytes
  pub size : ℕ

pub record MultipartField : Type 0 where
  pub field_name : Bytes
  pub value : Bytes

pub record MultipartParser : Type 0 where
  pub boundary : Bytes
  pub files : List MultipartFile
  pub fields : List MultipartField

-- The boundary of a content type, or an empty text where there is none.
unfoldable pub extract_boundary : Bytes → Bytes
unfolding find? before
extract_boundary content_type =
    let prefix = codes "boundary=" in
    elim (find? prefix content_type) [
      | none ↦ []
      | some position ↦
          (let rest = drop (position + length prefix) content_type in
            elim (before b';' rest) [ none ↦ remove_quotes rest | some b ↦ remove_quotes b ])
    ]

abbrev pub construct : Bytes → MultipartParser
construct content_type = record {
  boundary = extract_boundary content_type;
  files = [];
  fields = [];
}

-- `params[key]` of a map of strings.
abbrev pub param : Bytes → Assoc Bytes → Bytes
param key params = elim (lookup key params) [ none ↦ [] | some value ↦ value ]

abbrev pub is_newline : ℕ → Bool
is_newline c = c == carriage_return || c == line_feed

-- Where the headers of a part end, behind the empty line.
unfoldable pub headers_end : Bytes → Option ℕ
unfolding find?
headers_end part = elim (find? (codes "\r\n\r\n") part) [
  | some i ↦ some (i + 4)
  | none ↦ elim (find? (codes "\n\n") part) [ some i ↦ some (i + 2) | none ↦ none ]
]

-- A file if the part has a filename, else a field.
unfoldable pub add_part : Bytes → Bytes → MultipartParser → MultipartParser
unfolding lookup extract_header_value parse_content_disposition
add_part headers contents p =
    let disposition = extract_header_value headers (codes "Content-Disposition") in
    let params = parse_content_disposition disposition in
    let field_name = param (codes "name") params in
    let filename = param (codes "filename") params in
    if is_empty filename
    then record p { fields = p.fields ++ record { field_name = field_name; value = contents } ∷ [] }
    else record p {
      files =
          p.files
          ++ record {
            field_name = field_name;
            filename = filename;
            content_type = extract_header_value headers (codes "Content-Type");
            contents = contents;
            size = length contents;
          }
            ∷ [];
    }

-- A part, split where its headers end.
unfoldable pub split_part : Bytes → MultipartParser → MultipartParser
unfolding headers_end add_part
split_part part p = elim (headers_end part) [
  | none ↦ p
  | some i ↦ add_part (take i part) (drop i part) p
]

-- What a round does with the text between two delimiters.
unfoldable pub read_part : Bytes → MultipartParser → MultipartParser
unfolding split_part
read_part text p = split_part (drop_last_while is_newline text) p

abbrev skip_one : ℕ → Bytes → Bytes
skip_one c [] = []
skip_one c (x ∷ xs) = if x == c then xs else x ∷ xs

abbrev pub skip_newline : Bytes → Bytes
skip_newline rest = skip_one line_feed (skip_one carriage_return rest)

-- The loop over the rest of the body, on fuel; each round takes a delimiter out of the rest.
unfoldable pub read_parts : ℕ → Bytes → Bytes → MultipartParser → MultipartParser
unfolding find? read_part
read_parts zero delimiter rest p = p
read_parts (suc fuel) delimiter rest p =
    let text = skip_newline rest in
    if is_empty rest then p else elim (find? delimiter text) [
      | none ↦ p
      | some i ↦
          read_parts fuel delimiter (drop (i + length delimiter) text) (read_part (take i text) p)
    ]

unfoldable pub parse_multipart_data : Bytes → MultipartParser → Bool × MultipartParser
unfolding find? read_parts
parse_multipart_data body p =
    let delimiter = codes "--" ++ p.boundary in
    elim (find? delimiter body) [
      | none ↦ (false, p)
      | some i ↦ (true, read_parts (length body) delimiter (drop (i + length delimiter) body) p)
    ]

unfoldable pub parse : Bytes → MultipartParser → Bool × MultipartParser
unfolding parse_multipart_data
parse body p = if is_empty p.boundary then (false, p) else parse_multipart_data body p

abbrev first_file : Bytes → List MultipartFile → Option MultipartFile
first_file name [] = none
first_file name (f ∷ fs) = if eqb f.field_name name then some f else first_file name fs

abbrev pub get_file : MultipartParser → Bytes → Option MultipartFile
get_file p name = first_file name p.files

abbrev first_field : Bytes → List MultipartField → Option MultipartField
first_field name [] = none
first_field name (f ∷ fs) = if eqb f.field_name name then some f else first_field name fs

abbrev pub get_field : MultipartParser → Bytes → Bytes
get_field p name = elim (first_field name p.fields) [ none ↦ [] | some f ↦ f.value ]

abbrev pub has_file : MultipartParser → Bytes → Bool
has_file p name = is_some (get_file p name)

abbrev pub has_field : MultipartParser → Bytes → Bool
has_field p name = is_some (first_field name p.fields)
