-- ===== src/Multipart/Rounds.antt =====
-- The fuel of the loop over the parts.
use ur_webif.Base.{
  ℕ, zero, suc, ◌+◌, ◌≤◌, Option, none, some, [], ◌∷◌, Bytes, ◌≡◌, refl, arith, find?, length,
  length-drop,
}
use ur_webif.Multipart.Parser.{MultipartParser, read_parts, skip_newline}

skip_newline-shorter : (rest : Bytes) → length (skip_newline rest) ≤ length rest
skip_newline-shorter [] = omega arith
skip_newline-shorter (c ∷ []) = ground arith
skip_newline-shorter (c ∷ d ∷ rest) = ground arith

-- For a delimiter that is not empty, the loop has the same result with any numbers of rounds that
-- are not below the number of bytes that are left.
read_parts-fuel :
    (fuel more : ℕ) (delimiter rest : Bytes) (p : MultipartParser)
    → 1 ≤ length delimiter
    → length rest ≤ fuel
    → length rest ≤ more
    → read_parts fuel delimiter rest p ≡ read_parts more delimiter rest p
unfolding read_parts
read_parts-fuel zero zero delimiter rest p d h k = refl
read_parts-fuel zero (suc more) delimiter [] p d h k = refl
read_parts-fuel zero (suc more) delimiter (c ∷ rest) p d h k = ground (arith, h)
read_parts-fuel (suc fuel) zero delimiter [] p d h k = refl
read_parts-fuel (suc fuel) zero delimiter (c ∷ rest) p d h k = ground (arith, k)
read_parts-fuel (suc fuel) (suc more) delimiter [] p d h k = refl
read_parts-fuel (suc fuel) (suc more) delimiter (c ∷ rest) p d h k =
    go (find? delimiter (skip_newline (c ∷ rest))) refl
      (λ r q. read_parts-fuel fuel more delimiter r q d)
  where
    go :
        (o : Option ℕ)
        → find? delimiter (skip_newline (c ∷ rest)) ≡ o
        → ((r : Bytes) (q : MultipartParser)
            → length r ≤ fuel
            → length r ≤ more
            → read_parts fuel delimiter r q ≡ read_parts more delimiter r q)
        → read_parts (suc fuel) delimiter (c ∷ rest) p
          ≡ read_parts (suc more) delimiter (c ∷ rest) p
    go none e again = rw e refl
    go (some i) e again =
        let text = skip_newline (c ∷ rest) in
        rw e (
          again _ _
            (omega (
              arith,
              length-drop (i + length delimiter) text,
              skip_newline-shorter (c ∷ rest),
              h,
              d,
            ))
            (omega (
              arith,
              length-drop (i + length delimiter) text,
              skip_newline-shorter (c ∷ rest),
              k,
              d,
            )))
