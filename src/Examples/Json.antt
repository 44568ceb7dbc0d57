-- ===== src/Examples/Json.antt =====
-- A JSON library for the examples: numbers and Booleans are texts, and the text of a value is a
-- program that builds it on a stack.
use ur_webif.Base.{
  ℤ, pos, negsuc, ℕ, zero, suc, ◌+◌, ◌-◌, ◌*◌, ◌%◌, ◌^◌, Bool, true, false, Option, none, some,
  is_some, List, [], ◌∷◌, ◌++◌, Bytes, codes, to_string, ◌≡◌, ◌≢◌, refl, ◌∙◌, ap, arith, length,
  take, drop, eqb, eqb_iff, eqb_refl, if◌then◌else◌, Bool-cases, inl, inr,
}
use mathlib.Core.List.{append_assoc, append-nil}
use ur_webif.Json.{Attempt, done, threw, is_done, JsonLibrary, JsonLaws}

-- An object is its members behind each other, and an array its elements.
pub data Json : Type 0 where
  words : Bytes → Json
  nothing : Json
  slot : Bytes → Json → Json → Json
  end : Json
  cell : Json → Json → Json

abbrev elements_of : Json → List Json
elements_of (cell a rest) = a ∷ elements_of rest
elements_of (words w) = []
elements_of nothing = []
elements_of (slot k v rest) = []
elements_of end = []

abbrev array_of : List Json → Json
array_of [] = end
array_of (a ∷ more) = cell a (array_of more)

abbrev is_array_of : Json → Bool
is_array_of (cell a rest) = true
is_array_of end = true
is_array_of (words w) = false
is_array_of nothing = false
is_array_of (slot k v rest) = false

abbrev changed : Json → List Json → Json
changed (cell a rest) es = array_of es
changed end es = array_of es
changed (words w) es = words w
changed nothing es = nothing
changed (slot k v rest) es = slot k v rest

abbrev pub object_of : List (Bytes × Json) → Json
object_of [] = nothing
object_of ((k, v) ∷ more) = slot k v (object_of more)

abbrev pub items_of : Json → List (Bytes × Json)
items_of (slot k v rest) = (k, v) ∷ items_of rest
items_of (words w) = []
items_of nothing = []
items_of end = []
items_of (cell a rest) = []

abbrev pub find : Json → Bytes → Option Json
find (slot k v rest) l = if eqb k l then some v else find rest l
find (words w) l = none
find nothing l = none
find end l = none
find (cell a rest) l = none

abbrev pub put : Json → Bytes → Json → Json
put (slot k v rest) l u = if eqb k l then slot l u rest else slot k v (put rest l u)
put (words w) l u = slot l u nothing
put nothing l u = slot l u nothing
put end l u = slot l u nothing
put (cell a rest) l u = slot l u nothing

find-put : (j : Json) (k : Bytes) (v : Json) → find (put j k v) k ≡ some v
find-put (slot l u rest) k v = elim (Bool-cases (eqb l k)) [
  | inl is ↦ rw is (rw (eqb_refl k) refl)
  | inr is ↦ rw (is, is) (find-put rest k v)
]
find-put (words w) k v = rw (eqb_refl k) refl
find-put nothing k v = rw (eqb_refl k) refl
find-put end k v = rw (eqb_refl k) refl
find-put (cell a rest) k v = rw (eqb_refl k) refl

-- One step of the program: a letter for the text at hand, or a value made of the text and the stack.
abbrev act : ℕ → ℕ → Bytes × List Json → Bytes × List Json
act zero c (text, stack) = (text ++ c ∷ [], stack)
act (suc zero) c (text, stack) = ([], words text ∷ stack)
act (suc (suc zero)) c (text, stack) = ([], nothing ∷ stack)
act (suc (suc (suc zero))) c (text, stack) = ([], end ∷ stack)
act (suc (suc (suc (suc zero)))) c (text, rest ∷ v ∷ stack) = ([], slot text v rest ∷ stack)
act (suc (suc (suc (suc (suc zero))))) c (text, rest ∷ a ∷ stack) = ([], cell a rest ∷ stack)
act n c state = state

abbrev pub perform : Bytes → Bytes × List Json → Bytes × List Json
perform (n ∷ c ∷ more) state = perform more (act n c state)
perform (n ∷ []) state = state
perform [] state = state

abbrev letters : Bytes → Bytes
letters [] = []
letters (c ∷ cs) = 0 ∷ c ∷ letters cs

abbrev pub program : Json → Bytes → Bytes
program (words w) more = letters w ++ 1 ∷ 0 ∷ more
program nothing more = 2 ∷ 0 ∷ more
program end more = 3 ∷ 0 ∷ more
program (slot k v rest) more = program v (program rest (letters k ++ 4 ∷ 0 ∷ more))
program (cell a rest) more = program a (program rest (5 ∷ 0 ∷ more))

perform-letters :
    (w more text : Bytes) (stack : List Json)
    → perform (letters w ++ more) (text, stack) ≡ perform more (text ++ w, stack)
perform-letters [] more text stack = rw append-nil refl
perform-letters (c ∷ w) more text stack =
    perform-letters w more (text ++ c ∷ []) stack ∙ rw append_assoc refl

perform-program :
    (j : Json) (more : Bytes) (stack : List Json)
    → perform (program j more) ([], stack) ≡ perform more ([], j ∷ stack)
perform-program (words w) more stack = perform-letters w (1 ∷ 0 ∷ more) [] stack
perform-program nothing more stack = refl
perform-program end more stack = refl
perform-program (slot k v rest) more stack =
    perform-program v _ stack
    ∙ perform-program rest _ (v ∷ stack)
    ∙ perform-letters k (4 ∷ 0 ∷ more) [] (rest ∷ v ∷ stack)
perform-program (cell a rest) more stack =
    perform-program a _ stack ∙ perform-program rest _ (a ∷ stack)

abbrev pub top : Bytes × List Json → Json × Attempt (Unit {0})
top (text, []) = (nothing, threw (codes "parse error"))
top (text, j ∷ stack) = (j, done tt)

abbrev pub parsed : Json × Attempt (Unit {0}) → Attempt Json
parsed (j, done u) = done j
parsed (j, threw m) = threw m

abbrev given : Json → Option Json → Attempt (Json × Json)
given j none = threw (codes "no member")
given j (some v) = done (v, j)

abbrev pub member_of : Json → Bytes → Attempt (Json × Json)
member_of j k = given j (find j k)

abbrev flag_of : Json → Attempt Bool
flag_of (words w) =
    if eqb w (codes "true")
    then done true
    else if eqb w (codes "false")
    then done false
    else threw (codes "type error")
flag_of nothing = threw (codes "type error")
flag_of (slot k v rest) = threw (codes "type error")
flag_of end = threw (codes "type error")
flag_of (cell a rest) = threw (codes "type error")

abbrev has_words : Json → Bytes → Bool
has_words (words w) t = eqb w t
has_words nothing t = false
has_words (slot k v rest) t = false
has_words end t = false
has_words (cell a rest) t = false

abbrev text_of : Json → Attempt Bytes
text_of (words w) = done w
text_of nothing = threw (codes "type error")
text_of (slot k v rest) = threw (codes "type error")
text_of end = threw (codes "type error")
text_of (cell a rest) = threw (codes "type error")

-- The value of decimal digits.
abbrev decimal : ℕ → Bytes → ℕ
decimal n [] = n
decimal n (c ∷ cs) = decimal (n * 10 + (c - b'0')) cs

abbrev number_of : Json → Attempt ℕ
number_of (words w) = done (decimal 0 w % 2 ^ 32)
number_of nothing = threw (codes "type error")
number_of (slot k v rest) = threw (codes "type error")
number_of end = threw (codes "type error")
number_of (cell a rest) = threw (codes "type error")

abbrev integer_text : ℤ → Bytes
integer_text (pos n) = to_string n
integer_text (negsuc n) = codes "-" ++ to_string (n + 1)

abbrev if_array : Json → List Json → Attempt Json
if_array j es = if is_array_of j then done (array_of es) else threw (codes "type error")

abbrev pub library : JsonLibrary Json
library = record {
  read_from = λ content x. top (perform content ([], []));
  parse = λ content. parsed (top (perform content ([], [])));
  dump = λ j. done (program j []);
  null = nothing;
  text = words;
  flag = λ b. words (if b then codes "true" else codes "false");
  number = λ n. words (to_string n);
  array = array_of;
  object = object_of;
  empty = λ j. has_words j [];
  is_array = is_array_of;
  contains = λ j k. is_some (find j k);
  member = member_of;
  assign = λ j k v. done (put j k v);
  elements = elements_of;
  with_elements = changed;
  items = items_of;
  push_back = λ j e. if_array j (elements_of j ++ e ∷ []);
  erase = λ j i. if_array j (take i (elements_of j) ++ drop (suc i) (elements_of j));
  equals = has_words;
  value_flag = λ j k d. elim (find j k) [ none ↦ done d | some v ↦ flag_of v ];
  to_flag = flag_of;
  equals_flag = λ j b. has_words j (if b then codes "true" else codes "false");
  to_text = text_of;
  value_text = λ j k d. elim (find j k) [ none ↦ done d | some v ↦ text_of v ];
  value_int = λ j k d. elim (find j k) [ none ↦ done d | some v ↦ number_of v ];
  is_string = λ j. is_done (text_of j);
  integer = λ n. words (integer_text n);
}

found : (o : Option Json) (j w : Json) → given j o ≡ done (w, j) → o ≡ some w
found none j w h = ground (arith, h)
found (some v) j w h = ground (arith, h)

member-put :
    (j j' v : Json) (k : Bytes) → done (put j k v) ≡ done j' → member_of j' k ≡ done (v, j')
member-put j j' v k h = ground (arith, h, find-put j k v)

eqb_differ : (a b : Bytes) → a ≢ b → eqb a b ≡ false
eqb_differ a b ne = elim (Bool-cases (eqb a b)) [
  | inl e ↦ elim (ne ((eqb_iff a b).0 e)) [ ]
  | inr e ↦ e
]

find-put_other :
    (j v w : Json) (k l : Bytes) → k ≢ l → find j l ≡ some w → find (put j k v) l ≡ some w
find-put_other (slot m u rest) v w k l ne h = elim (Bool-cases (eqb m k)) [
  | inl is ↦
      (let m_is = (eqb_iff m k).0 is in
        let apart = eqb_differ k l ne in rw is (rw apart (rw (m_is, apart) at h)))
  | inr is ↦ rw is (elim (Bool-cases (eqb m l)) [
    | inl e ↦ rw e (rw e at h)
    | inr e ↦ rw e (find-put_other rest v w k l ne (rw e at h))
  ])
]
find-put_other (words t) v w k l ne h = ground (arith, h)
find-put_other nothing v w k l ne h = ground (arith, h)
find-put_other end v w k l ne h = ground (arith, h)
find-put_other (cell a rest) v w k l ne h = ground (arith, h)

elements-array : (es : List Json) → elements_of (array_of es) ≡ es
elements-array [] = refl
elements-array (e ∷ es) = ap (◌∷◌ e) (elements-array es)

is_array-array : (es : List Json) → is_array_of (array_of es) ≡ true
is_array-array [] = refl
is_array-array (e ∷ es) = refl

elements-changed :
    (j : Json) (es : List Json)
    → length es ≡ length (elements_of j)
    → elements_of (changed j es) ≡ es
elements-changed end es h = elements-array es
elements-changed (cell a rest) es h = elements-array es
elements-changed (words t) [] h = refl
elements-changed nothing [] h = refl
elements-changed (slot k v rest) [] h = refl
elements-changed (words t) (e ∷ es) h = ground (arith, h)
elements-changed nothing (e ∷ es) h = ground (arith, h)
elements-changed (slot k v rest) (e ∷ es) h = ground (arith, h)

is_array-changed : (j : Json) (es : List Json) → is_array_of (changed j es) ≡ is_array_of j
is_array-changed end es = is_array-array es
is_array-changed (cell a rest) es = is_array-array es
is_array-changed (words t) es = refl
is_array-changed nothing es = refl
is_array-changed (slot k v rest) es = refl

-- What an array is made of is in it.
made_array :
    (j : Json) (es : List Json)
    → is_array_of j ≡ true
    → (j' : Json) × (if_array j es ≡ done j') × (is_array_of j' ≡ true) × (elements_of j' ≡ es)
made_array j es h = (array_of es, rw h refl, is_array-array es, elements-array es)

pub top-program :
    (j : Json) (content : Bytes)
    → done (program j []) ≡ done content
    → top (perform content ([], [])) ≡ (j, done tt)
top-program j content h = ground (arith, h, perform-program j [] [])

pub laws : JsonLaws library
laws = record {
  member-assign = member-put;
  member-assign_other = λ j j' v w k l h ne m.
      ground (arith, h, find-put_other j v w k l ne (found (find j l) j w m));
  assign-member = λ j w v k l h. (put j k v, refl);
  contains-member = λ j w l h. rw (found (find j l) j w h) refl;
  elements-with_elements = elements-changed;
  is_array-with_elements = is_array-changed;
  push_back-array = λ j e. made_array j _;
  erase-array = λ j i h _. made_array j _ h;
  equals-text = λ s t. refl;
  member-object = λ k v more. rw (eqb_refl k) refl;
  read-dump = λ j x content h. top-program j content h;
}
