-- ===== src/Multipart/Newlines.antt =====
-- What a round of the loop does to the end of a part.
use ur_webif.Base.{
  ℕ, Bool, true, false, none, [], ◌∷◌, ◌++◌, Bytes, ◌≡◌, refl, sym, ap, ◌∙◌, all_of,
  drop_last_while, arith,
}
use mathlib.Core.List.{reverse, append_assoc, append-nil, reverse-append, reverse-reverse}
use ur_webif.Multipart.Parser.{MultipartParser, is_newline, headers_end, read_part, split_part}

drop_last_while-one :
    (p : ℕ → Bool) (s : Bytes) (c : ℕ)
    → p c ≡ true
    → drop_last_while p (s ++ c ∷ []) ≡ drop_last_while p s
drop_last_while-one p s c h = rw (drop_last_while, reverse-append s (c ∷ []), h) refl

-- The characters at the end that pass the test go, however many there are.
drop_last_while-all :
    (p : ℕ → Bool) (s back : Bytes)
    → all_of p back ≡ true
    → drop_last_while p (s ++ back) ≡ drop_last_while p s
drop_last_while-all p s [] h = rw append-nil refl
drop_last_while-all p s (c ∷ back) h =
    ap (drop_last_while p) (sym (append_assoc s (c ∷ []) back))
    ∙ drop_last_while-all p (s ++ c ∷ []) back (ground (arith, h))
    ∙ drop_last_while-one p s c (ground (arith, h))

pub drop_last_while-kept :
    (p : ℕ → Bool) (s : Bytes) (c : ℕ) → p c ≡ false → drop_last_while p (s ++ c ∷ []) ≡ s ++ c ∷ []
drop_last_while-kept p s c h =
    rw (drop_last_while, reverse-append s (c ∷ []), h)
      (reverse-append (c ∷ []) (reverse s) ∙ ap (λ x. x ++ c ∷ []) (reverse-reverse s))

-- Any carriage returns and line feeds behind the text of a part make no difference, whether they
-- belong to the contents or not.
pub read_part-newlines :
    (text back : Bytes) (p : MultipartParser)
    → all_of is_newline back ≡ true
    → read_part (text ++ back) p ≡ read_part text p
unfolding read_part
read_part-newlines text back p h =
    ap (λ part. split_part part p) (drop_last_while-all is_newline text back h)

-- A part of headers alone, as a field without a value has, leaves nothing behind.
pub read_part-empty :
    (headers back : Bytes) (p : MultipartParser)
    → all_of is_newline back ≡ true
    → headers_end (drop_last_while is_newline headers) ≡ none
    → read_part (headers ++ back) p ≡ p
unfolding read_part split_part
read_part-empty headers back p h unended =
    read_part-newlines headers back p h ∙ rw (read_part, split_part, unended) refl
