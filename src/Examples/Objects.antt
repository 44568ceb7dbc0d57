-- ===== src/Examples/Objects.antt =====
-- A JSON library for the examples whose texts are bytes: a value with another number in a text has
-- no text.
use ur_webif.Base.{
  ℕ, Bool, true, [], ◌∷◌, Bytes, codes, Assoc, lookup, insert, ltb, ltb→lt, if◌then◌else◌, ◌≡◌,
  refl, ◌∙◌, ap, arith, sym, eqb, eqb_refl, all_of, Bool-cases, inl, inr,
}
use ur_webif.Json.{Attempt, done, threw, JsonLibrary}
use ur_webif.Json.Objects.{ObjectLaws}
use ur_webif.Login.Tokens.{AreBytes}
use ur_webif.Examples.Json.{
  Json, slot, library, program, perform, top, parsed, object_of, items_of, find, put, top-program,
}

abbrev is_byte : ℕ → Bool
is_byte c = ltb c 256

abbrev checked : Bytes → Attempt Bytes
checked text = if all_of is_byte text then done text else threw (codes "invalid UTF-8 byte")

abbrev pub byte_library : JsonLibrary Json
byte_library = record library { dump = λ j. checked (program j []) }

all_of-AreBytes : (text : Bytes) → all_of is_byte text ≡ true → AreBytes text
all_of-AreBytes [] h = tt
all_of-AreBytes (c ∷ cs) h =
    (ltb→lt c 256 (ground (arith, h)), all_of-AreBytes cs (ground (arith, h)))

checked-done :
    (text content : Bytes) → checked text ≡ done content → (text ≡ content) × AreBytes text
checked-done text content h = elim (Bool-cases (all_of is_byte text)) [
  | inl e ↦ (ground (arith, rw e at h), all_of-AreBytes text e)
  | inr e ↦ absurd (ground (arith, rw e at h))
]

pub dump-AreBytes : (j : Json) (text : Bytes) → byte_library.dump j ≡ done text → AreBytes text
dump-AreBytes j text h = let (e, bytes) = checked-done (program j []) text h in rw e at bytes

put-object :
    (m : Assoc Json) (k : Bytes) (v : Json) → put (object_of m) k v ≡ object_of (insert k v m)
unfolding insert
put-object [] k v = refl
put-object ((l, u) ∷ m) k v = elim (Bool-cases (eqb l k)) [
  | inl e ↦ rw e refl
  | inr e ↦ rw e (ap (slot l u) (put-object m k v))
]

find-object : (m : Assoc Json) (k : Bytes) → find (object_of m) k ≡ lookup k m
unfolding lookup
find-object [] k = refl
find-object ((l, u) ∷ m) k = elim (Bool-cases (eqb l k)) [
  | inl e ↦ rw e refl
  | inr e ↦ rw e (find-object m k)
]

items-object : (m : Assoc Json) → items_of (object_of m) ≡ m
items-object [] = refl
items-object ((l, u) ∷ m) = ap (◌∷◌ (l, u)) (items-object m)

parsed-program :
    (j : Json) (content : Bytes)
    → checked (program j []) ≡ done content
    → parsed (top (perform content ([], []))) ≡ done j
parsed-program j content h =
    ap (λ (text : Bytes). parsed (top (perform text ([], []))))
      (sym (checked-done (program j []) content h).0)
    ∙ ap parsed (top-program j (program j []) refl)

pub byte_laws : ObjectLaws byte_library
byte_laws = record {
  assign-null = λ k v. ap done (put-object [] k v);
  assign-object = λ m k v. ap done (put-object m k v);
  member-lookup = λ m k v h. rw (find-object m k, h) refl;
  contains-lookup = λ m k. rw (find-object m k) refl;
  items-IsMap = λ m h. rw (items-object m) h;
  items-lookup = λ m k h. rw (items-object m) refl;
  parse-dump = parsed-program;
  to_text-text = λ s. refl;
  equals_flag-flag = eqb_refl (codes "true");
}
