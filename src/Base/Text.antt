-- ===== src/Base/Text.antt =====
-- `std::string` as the list of its bytes, and the members of it that the sources call.
use Prim.Native.Nat.{ℕ, zero, suc, ◌+◌, ◌/◌, ◌%◌}
use Prim.Native.Char.{code}
use Prim.Native.String.{String}
use mathlib.Core.Path.{◌≡◌, refl}
use mathlib.Core.Logic.{◌↔◌}
use mathlib.Core.Bool.{Bool, true, false, ◌&&◌, ◌||◌}
use mathlib.Core.List.{List, [], ◌∷◌, reverse}
use mathlib.Core.Option.{Option, none, some}
use native.Mathlib.Omega.{arith}
use ur_webif.Base.Tests.{◌==◌, if◌then◌else◌}
use ur_webif.Base.Lists.{take, drop}

abbrev pub Bytes : Type 0
Bytes = List ℕ

-- The bytes of an ASCII text.
abbrev pub codes : String → Bytes
codes String.[] = []
codes (String.◌∷◌ c s) = code c ∷ codes s

-- `a == b` on strings.
unfoldable pub eqb : Bytes → Bytes → Bool
eqb [] [] = true
eqb (x ∷ xs) (y ∷ ys) = x == y && eqb xs ys
eqb [] (y ∷ ys) = false
eqb (x ∷ xs) [] = false

pub eqb_iff : (a b : Bytes) → (eqb a b ≡ true) ↔ (a ≡ b)
unfolding eqb
eqb_iff [] [] = ground arith
eqb_iff [] (y ∷ ys) = ground arith
eqb_iff (x ∷ xs) [] = ground arith
eqb_iff (x ∷ xs) (y ∷ ys) = ground (arith, eqb_iff xs ys)

pub eqb_refl : (a : Bytes) → eqb a a ≡ true
eqb_refl a = (eqb_iff a a).1 refl

abbrev pub is_empty : Bytes → Bool
is_empty [] = true
is_empty (x ∷ xs) = false

-- Whether the text begins with the needle.
unfoldable pub starts_with : Bytes → Bytes → Bool
starts_with [] s = true
starts_with (n ∷ ns) [] = false
starts_with (n ∷ ns) (c ∷ cs) = n == c && starts_with ns cs

-- `s.find(needle)`; `none` is `npos`.
unfoldable pub find? : Bytes → Bytes → Option ℕ
unfolding starts_with
find? needle [] = if is_empty needle then some 0 else none
find? needle (c ∷ cs) =
    if starts_with needle (c ∷ cs)
    then some 0
    else elim (find? needle cs) [ none ↦ none | some i ↦ some (suc i) ]

-- `s.find(needle, pos)` for a needle that is not empty.
unfoldable pub find_from? : Bytes → Bytes → ℕ → Option ℕ
unfolding find?
find_from? needle s p = elim (find? needle (drop p s)) [ none ↦ none | some i ↦ some (p + i) ]

-- `s.substr(pos, count)` for a position within the string.
abbrev pub substr : Bytes → ℕ → ℕ → Bytes
substr s p n = take n (drop p s)

abbrev pub skip_while : (ℕ → Bool) → Bytes → Bytes
skip_while p [] = []
skip_while p (c ∷ cs) = if p c then skip_while p cs else c ∷ cs

-- A character before the first text.
abbrev pub prepend : ℕ → List Bytes → List Bytes
prepend c [] = (c ∷ []) ∷ []
prepend c (t ∷ ts) = (c ∷ t) ∷ ts

-- What `std::getline` with a delimiter gives one after the other.
unfoldable pub getlines : ℕ → Bytes → List Bytes
getlines d [] = []
getlines d (c ∷ cs) = if c == d then [] ∷ getlines d cs else prepend c (getlines d cs)

abbrev pub drop_last_while : (ℕ → Bool) → Bytes → Bytes
drop_last_while p s = reverse (skip_while p (reverse s))

abbrev pub is_blank : ℕ → Bool
is_blank c = c == b' ' || c == b'\t'

-- `std::to_string` of a number that is at least 0, on fuel: a number has fewer digits than itself
-- plus one.
abbrev to_string_from : ℕ → ℕ → Bytes → Bytes
to_string_from zero n acc = acc
to_string_from (suc fuel) n acc =
    let acc' = (b'0' + n % 10) ∷ acc in
    let rest = to_string_from fuel (n / 10) acc' in if n / 10 == 0 then acc' else rest

unfoldable pub to_string : ℕ → Bytes
to_string n = to_string_from (suc n) n []
