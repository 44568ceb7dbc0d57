-- ===== src/Examples/Multipart.antt =====
-- Uploads with one file.
use ur_webif.Base.{
  getlines, true, [], ◌∷◌, ◌++◌, Bytes, codes, ◌≡◌, refl, find?, starts_with, eqb, lookup, insert,
  eqb,
}
use ur_webif.Multipart.Headers.{
  before, extract_header_value, add_param, add_params, parse_content_disposition,
}
use ur_webif.Multipart.Parser.{MultipartParser, construct, extract_boundary, read_part, parse}
use ur_webif.Multipart.Newlines.{read_part-newlines}
use ur_webif.Multipart.RoundTrip.{Entry, IsSound, print_body, parse-print}

abbrev file_headers : Bytes
file_headers =
    codes "Content-Disposition: form-data; name=\"fw\"; filename=\"a.bin\"\r\nContent-Type: x/y"

abbrev file_entry : Entry
file_entry = record { headers = file_headers; front = codes "a--xy\r\n"; last = b'!' }

abbrev parser : MultipartParser
parser = record { boundary = codes "xyz"; files = []; fields = [] }

file_entry-IsSound : IsSound (codes "--xyz") file_entry
unfolding find? starts_with
file_entry-IsSound = record { last_kept = refl; head = λ rest. refl; whole = λ rest. refl }

boundary_of : construct (codes "multipart/form-data; boundary=\"xyz\"; x") ≡ parser
unfolding extract_boundary find? starts_with before
boundary_of = refl

abbrev field_entry : Entry
field_entry = record {
  headers = codes "Content-Disposition: form-data; name=\"keep\"";
  front = codes "ye";
  last = b's';
}

field_entry-IsSound : IsSound (codes "--xyz") field_entry
unfolding find? starts_with
field_entry-IsSound = record { last_kept = refl; head = λ rest. refl; whole = λ rest. refl }

parse-print_example :
    parse (print_body (codes "xyz") (file_entry ∷ field_entry ∷ []) (codes "--\r\n")) parser ≡ (
      true,
      record {
        boundary = codes "xyz";
        files =
            record {
              field_name = codes "fw";
              filename = codes "a.bin";
              content_type = codes "x/y";
              contents = codes "a--xy\r\n!";
              size = 8;
            }
            ∷ [];
        fields = record { field_name = codes "keep"; value = codes "yes" } ∷ [];
      },
    )
unfolding find? starts_with extract_header_value before parse_content_disposition getlines
    add_params add_param insert lookup eqb
parse-print_example =
    parse-print parser (file_entry ∷ field_entry ∷ []) (codes "--\r\n") refl
      (file_entry-IsSound, (field_entry-IsSound, tt)) refl

read_part-newlines_example :
    read_part (file_headers ++ (codes "\r\n\r\nfirmware\n\n" ++ codes "\n\r\n")) parser
    ≡ read_part (file_headers ++ codes "\r\n\r\nfirmware\n\n") parser
read_part-newlines_example =
    read_part-newlines (file_headers ++ codes "\r\n\r\nfirmware\n\n") (codes "\n\r\n") parser refl
