-- ===== src/Files/Path/Traversal.antt =====
-- What sanitizePath removes, and what it lets through.
use mathlib.Core.List.{append_assoc}
use ur_webif.Base.{
  ℕ, zero, suc, ◌+◌, ◌-◌, ◌<◌, true, false, Option, none, some, [], ◌∷◌, ◌++◌, Bytes, codes, ◌≡◌,
  ◌≢◌, refl, sym, ◌∙◌, ap, arith, eqb, eqb_iff, length, length-append, drop, find?, find_from?,
  starts_with, ◌==◌, ◌&&◌, if◌then◌else◌, skip_while, Bool-cases, Option-cases, inl, inr,
  drop-length-append, take-length-append,
}
use ur_webif.Files.Path.{dot_dot, erase_at, erase_loop, drop_final, sanitize_path, full_path}

-- The text without its occurrences of "../", found from left to right; what a removal joins is not
-- looked at again.
unfoldable pub strip : Bytes → Bytes
strip (a ∷ b ∷ c ∷ rest) =
    let without = strip rest in
    let kept = a ∷ strip (b ∷ c ∷ rest) in
    if a == b'.' && (b == b'.' && c == b'/') then without else kept
strip s = s

strip-cons : (a : ℕ) (s : Bytes) → starts_with dot_dot (a ∷ s) ≡ false → strip (a ∷ s) ≡ a ∷ strip s
unfolding strip starts_with
strip-cons a [] h = refl
strip-cons a (b ∷ []) h = refl
strip-cons a (b ∷ c ∷ s) h = ground arith

strip_dots : (s : Bytes) → strip (dot_dot ++ s) ≡ strip s
unfolding strip
strip_dots s = refl

-- Where the first occurrence is, and what `strip` makes of the text.
data Found (s : Bytes) : Option ℕ → Type 0 where
  absent : strip s ≡ s → Found s none
  present :
      (before after : Bytes) {i : ℕ}
      → i ≡ length before
      → s ≡ before ++ (dot_dot ++ after)
      → strip s ≡ before ++ strip after
      → Found s (some i)

Found-cons :
    (a : ℕ) (s : Bytes) (o : Option ℕ)
    → starts_with dot_dot (a ∷ s) ≡ false
    → Found s o
    → Found (a ∷ s) (elim o [ none ↦ none | some i ↦ some (suc i) ])
Found-cons a s none miss (absent e) = absent (strip-cons a s miss ∙ ap (◌∷◌ a) e)
Found-cons a s (some i) miss (present before after n e f) =
    present (a ∷ before) after (omega (arith, n)) (ap (◌∷◌ a) e)
      (strip-cons a s miss ∙ ap (◌∷◌ a) f)

starts_with-rest :
    (s : Bytes) → starts_with dot_dot s ≡ true → (rest : Bytes) × (s ≡ dot_dot ++ rest)
unfolding starts_with
starts_with-rest [] h = absurd (ground arith)
starts_with-rest (a ∷ []) h = absurd (ground arith)
starts_with-rest (a ∷ b ∷ []) h = absurd (ground arith)
starts_with-rest (a ∷ b ∷ c ∷ s) h = (s, ground arith)

find?-hit :
    (a : ℕ) (s : Bytes) → starts_with dot_dot (a ∷ s) ≡ true → find? dot_dot (a ∷ s) ≡ some 0
unfolding find?
find?-hit a s h = rw h

find?-miss :
    (a : ℕ) (s : Bytes)
    → starts_with dot_dot (a ∷ s) ≡ false
    → find? dot_dot (a ∷ s) ≡ elim (find? dot_dot s) [ none ↦ none | some i ↦ some (suc i) ]
unfolding find?
find?-miss a s h = rw h

find?-Found : (s : Bytes) → Found s (find? dot_dot s)
find?-Found [] = unfold find? in absent (unfold strip in refl)
find?-Found (a ∷ s) = elim (Bool-cases (starts_with dot_dot (a ∷ s))) [
  | inl h ↦
      let (rest, e) = starts_with-rest (a ∷ s) h in
      rw (find?-hit a s h) (present [] rest refl e (ap strip e ∙ strip_dots rest))
  | inr h ↦ rw (find?-miss a s h) (Found-cons a s (find? dot_dot s) h (find?-Found s))
]

drop_three : (xs after : Bytes) → drop (length xs + 3) (xs ++ (dot_dot ++ after)) ≡ after
drop_three [] after = refl
drop_three (x ∷ xs) after =
    let e : suc (length xs) + 3 ≡ suc (length xs + 3) = omega arith in
    ap (λ k. drop k (x ∷ (xs ++ (dot_dot ++ after)))) e ∙ drop_three xs after

erase_at-append : (xs after : Bytes) → erase_at (length xs) (xs ++ (dot_dot ++ after)) ≡ xs ++ after
erase_at-append xs after = rw (take-length-append xs (dot_dot ++ after), drop_three xs after)

find_from?-append :
    (xs u : Bytes)
    → find_from? dot_dot (xs ++ u) (length xs)
      ≡ elim (find? dot_dot u) [ none ↦ none | some i ↦ some (length xs + i) ]
unfolding find_from?
find_from?-append xs u = rw (find_from?, drop-length-append xs u)

-- One round, from a position behind which the text is known.
erase_round :
    (fuel i : ℕ) (xs u before after : Bytes)
    → i ≡ length before
    → u ≡ before ++ (dot_dot ++ after)
    → erase_loop fuel (length xs + i) (erase_at (length xs + i) (xs ++ u))
      ≡ erase_loop fuel (length (xs ++ before)) ((xs ++ before) ++ after)
erase_round fuel i xs u before after n e =
    let m : length xs + i ≡ length (xs ++ before) = omega (arith, n, length-append xs before) in
    let v : xs ++ u ≡ (xs ++ before) ++ (dot_dot ++ after) =
      ap (◌++◌ xs) e ∙ sym (append_assoc xs before (dot_dot ++ after)) in
    ap (λ k. erase_loop fuel k (erase_at k (xs ++ u))) m
    ∙ ap (λ w. erase_loop fuel (length (xs ++ before)) (erase_at (length (xs ++ before)) w)) v
    ∙ ap (erase_loop fuel (length (xs ++ before))) (erase_at-append (xs ++ before) after)

-- The loop removes what `strip` removes, in fewer rounds than there are characters left.
erase_loop-strip :
    (fuel : ℕ) (xs u : Bytes)
    → length u < fuel
    → erase_loop fuel (length xs) (xs ++ u) ≡ xs ++ strip u
unfolding erase_loop strip
erase_loop-strip zero xs u h = absurd (omega (arith, h))
erase_loop-strip (suc fuel) xs u h =
    rw (erase_loop, find_from?-append xs u)
      (by_found (find? dot_dot u) (find?-Found u) (erase_loop-strip fuel))
  where
    by_found :
        (o : Option ℕ)
        → Found u o
        → ((xs' u' : Bytes)
            → length u' < fuel
            → erase_loop fuel (length xs') (xs' ++ u') ≡ xs' ++ strip u')
        → (elim (elim o as (λ x. Option ℕ) [ none ↦ none | some i ↦ some (length xs + i) ])
            as (λ x. Bytes) [
              | none ↦ xs ++ u
              | some next ↦ erase_loop fuel next (erase_at next (xs ++ u))
            ])
          ≡ xs ++ strip u
    by_found none (absent e) ih = ap (◌++◌ xs) (sym e)
    by_found (some i) (present before after n e f) ih =
        erase_round fuel i xs u before after n e
        ∙ ih (xs ++ before) after
            (omega (arith, h, ap length e, length-append before (dot_dot ++ after)))
        ∙ append_assoc xs before (strip after)
        ∙ ap (◌++◌ xs) (sym f)

-- `sanitizePath` takes away the leading slashes, then the occurrences of "../" in one pass from
-- left to right, without looking again at what a removal joins, and then one "../" at the end.
pub sanitize_path-strip :
    (path : Bytes) → sanitize_path path ≡ drop_final (strip (skip_while (λ c. c == b'/') path))
unfolding sanitize_path
sanitize_path-strip path =
    let relative = skip_while (λ c. c == b'/') path in
    ap drop_final (erase_loop-strip (suc (length relative)) [] relative (omega arith))

clean-tail :
    (a : ℕ) (s : Bytes)
    → find? dot_dot (a ∷ s) ≡ none
    → (starts_with dot_dot (a ∷ s) ≡ false) × (find? dot_dot s ≡ none)
clean-tail a s h = elim (Bool-cases (starts_with dot_dot (a ∷ s))) [
  | inl t ↦ absurd (ground (arith, h, find?-hit a s t))
  | inr t ↦ (
    t,
    elim (Option-cases (find? dot_dot s)) [
      | inl e ↦ e
      | inr (i, e) ↦ absurd (ground (arith, h, find?-miss a s t, e))
    ],
  )
]

strip-clean : (s : Bytes) → find? dot_dot s ≡ none → strip s ≡ s
unfolding strip
strip-clean [] h = refl
strip-clean (a ∷ s) h =
    let (miss, rest) = clean-tail a s h in strip-cons a s miss ∙ ap (◌∷◌ a) (strip-clean s rest)

-- A text without "../" does not end in it.
drop-clean : (k : ℕ) (s : Bytes) → find? dot_dot s ≡ none → eqb (drop k s) dot_dot ≡ false
unfolding eqb
drop-clean zero [] h = refl
drop-clean (suc k) [] h = refl
drop-clean zero (a ∷ s) h = elim (Bool-cases (eqb (a ∷ s) dot_dot)) [
  | inl e ↦
      let hit : starts_with dot_dot (a ∷ s) ≡ true =
        ap (starts_with dot_dot) ((eqb_iff (a ∷ s) dot_dot).0 e) ∙ (unfold starts_with in refl) in
      absurd (ground (arith, hit, (clean-tail a s h).0))
  | inr e ↦ e
]
drop-clean (suc k) (a ∷ s) h = drop-clean k s (clean-tail a s h).1

drop_final-by : (s : Bytes) → eqb (drop (length s - 3) s) dot_dot ≡ false → drop_final s ≡ s
unfolding drop_final
drop_final-by s h = rw h (ground arith)

-- A relative path without "../" is served as it is.
pub sanitize_path-clean :
    (c : ℕ) (path : Bytes)
    → c ≢ b'/'
    → find? dot_dot (c ∷ path) ≡ none
    → sanitize_path (c ∷ path) ≡ c ∷ path
sanitize_path-clean c path relative clean =
    let start : skip_while (λ c. c == b'/') (c ∷ path) ≡ c ∷ path = ground (arith, relative) in
    sanitize_path-strip (c ∷ path)
    ∙ ap (λ s. drop_final (strip s)) start
    ∙ ap drop_final (strip-clean (c ∷ path) clean)
    ∙ drop_final-by (c ∷ path) (drop-clean (length (c ∷ path) - 3) (c ∷ path) clean)

strip_doubled :
    (rest : Bytes) → find? dot_dot rest ≡ none → strip (codes "....//" ++ rest) ≡ dot_dot ++ rest
unfolding strip
strip_doubled rest clean =
    ap (λ s. b'.' ∷ b'.' ∷ s)
      (strip-cons b'/' rest (unfold starts_with in refl) ∙ ap (◌∷◌ b'/') (strip-clean rest clean))

-- What a name behind "../" ends in.
drop_behind :
    (c : ℕ) (rest : Bytes)
    → find? dot_dot (c ∷ rest) ≡ none
    → eqb (drop (length (dot_dot ++ (c ∷ rest)) - 3) (dot_dot ++ (c ∷ rest))) dot_dot ≡ false
drop_behind c rest clean =
    let e : length (dot_dot ++ (c ∷ rest)) - 3 ≡ suc (length rest) = omega arith in
    ap (λ k. eqb (drop k (dot_dot ++ (c ∷ rest))) dot_dot) e ∙ by_length rest clean
  where
    by_length :
        (rest : Bytes)
        → find? dot_dot (c ∷ rest) ≡ none
        → eqb (drop (suc (length rest)) (dot_dot ++ (c ∷ rest))) dot_dot ≡ false
    by_length [] clean = unfold eqb in refl
    by_length (x ∷ []) clean = unfold eqb in refl
    by_length (x ∷ y ∷ zs) clean = drop-clean (length zs) (c ∷ x ∷ y ∷ zs) clean

-- A path that begins with "....//", with a name without "../" behind it, gets past: what is left
-- begins with "../", and the file is looked for outside the document root.
pub full_path-traversal :
    (root : Bytes) (c : ℕ) (rest : Bytes)
    → find? dot_dot (c ∷ rest) ≡ none
    → full_path root (codes "....//" ++ (c ∷ rest)) ≡ root ++ (codes "/../" ++ (c ∷ rest))
unfolding full_path
full_path-traversal root c rest clean =
    ap (λ s. root ++ (b'/' ∷ s))
      (sanitize_path-strip (codes "....//" ++ (c ∷ rest))
        ∙ ap drop_final (strip_doubled (c ∷ rest) clean)
        ∙ drop_final-by (dot_dot ++ (c ∷ rest)) (drop_behind c rest clean))
