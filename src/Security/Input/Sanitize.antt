-- ===== src/Security/Input/Sanitize.antt =====
-- The loop of sanitizeString against its description.
use mathlib.Core.List.{append_assoc, append-nil}
use ur_webif.Base.{
  ℕ, zero, suc, ◌+◌, ◌<◌, true, false, [], ◌∷◌, ◌++◌, Bytes, ◌≡◌, ◌∙◌, sym, arith, length,
  length-append, leb, take, keep_if, Bool-cases, inl, inr,
}
use ur_webif.Security.Input.{sanitize_loop, sanitize_string, is_printable}

sanitize_loop-take :
    (m k : ℕ) (done cs : Bytes)
    → length done + suc k ≡ m
    → sanitize_loop m done cs ≡ done ++ take (suc k) (keep_if is_printable cs)
unfolding sanitize_loop
sanitize_loop-take m k done [] h = sym (append-nil done)
sanitize_loop-take m zero done (c ∷ cs) h =
    let full : leb m (length (done ++ c ∷ [])) ≡ true =
      ground (arith, length-append done (c ∷ [])) in
    let room : leb m (length done) ≡ false = ground arith in
    elim (Bool-cases (is_printable c)) [
      | inl printable ↦ rw (printable, full)
      | inr other ↦ rw (other, room) (sanitize_loop-take m zero done cs h)
    ]
sanitize_loop-take m (suc k) done (c ∷ cs) h =
    let after : leb m (length (done ++ c ∷ [])) ≡ false =
      ground (arith, length-append done (c ∷ [])) in
    let room : leb m (length done) ≡ false = ground arith in
    let next =
      sanitize_loop-take m k (done ++ c ∷ []) cs (omega (arith, length-append done (c ∷ []))) in
    elim (Bool-cases (is_printable c)) [
      | inl printable ↦
          rw (printable, after)
            (next ∙ append_assoc done (c ∷ []) (take (suc k) (keep_if is_printable cs)))
      | inr other ↦ rw (other, room) (sanitize_loop-take m (suc k) done cs h)
    ]

-- With a limit of at least 1, `sanitizeString` gives the printable ASCII characters of the input,
-- in order, cut off at the limit.
sanitize_string-take :
    (input : Bytes) (m : ℕ) → 0 < m → sanitize_string input m ≡ take m (keep_if is_printable input)
unfolding sanitize_string
sanitize_string-take input zero h = absurd (omega arith)
sanitize_string-take input (suc m) h = sanitize_loop-take (suc m) m [] input (omega arith)
