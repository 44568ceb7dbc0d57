-- ===== src/Examples/Config.antt =====
-- A configuration file with a port and a document root that validateConfig replaces.
use ur_webif.Base.{ℕ, ◌+◌, ◌*◌, ◌-◌, some, List, [], ◌∷◌, Bytes, codes, true, ◌≡◌, ℤ, pos}
use ur_webif.Run.{Ends}
use ur_webif.Json.{Attempt, done, threw}
use ur_webif.Config.{Conversions, get_default_config, parse_config}
use ur_webif.Config.Valid.{IsValid, parse_config-IsValid}
use ur_webif.Examples.Json.{Json, words, object_of, program, library}

abbrev decimal : ℕ → Bytes → ℕ
decimal n [] = n
decimal n (c ∷ cs) = decimal (n * 10 + (c - b'0')) cs

abbrev int_of : Attempt Bytes → Attempt ℤ
int_of (done text) = done (pos (decimal 0 text))
int_of (threw e) = threw e

abbrev add_text : Attempt Bytes → Attempt (List Bytes) → Attempt (List Bytes)
add_text (done text) (done more) = done (text ∷ more)
add_text (done text) (threw e) = threw e
add_text (threw e) more = threw e

abbrev texts_of : List Json → Attempt (List Bytes)
texts_of [] = done []
texts_of (j ∷ js) = add_text (library.to_text j) (texts_of js)

abbrev conversions : Conversions Json
conversions = record {
  to_int = λ j. int_of (library.to_text j);
  to_texts = λ j. texts_of (library.elements j);
}

abbrev settings : Json
settings = object_of (
    (codes "port", words (codes "70000"))
    ∷ (codes "host", words (codes "10.0.0.1"))
    ∷ (codes "document_root", words [])
    ∷ [])

parse_config-IsValid_example :
    Ends
      (parse_config library conversions (some (program settings [])) get_default_config)
      (λ loaded after. loaded ≡ true → IsValid after)
      (λ _ _. ⊥)
parse_config-IsValid_example =
    parse_config-IsValid library conversions (some (program settings [])) get_default_config
