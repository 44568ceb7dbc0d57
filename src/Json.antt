-- ===== src/Json.antt =====
-- The calls of the JSON library, nlohmann/json.hpp, as an interface. Nothing of it is defined here:
-- a value of `JsonLibrary J` is an argument of the code that calls it.
pub mod Objects
use ur_webif.Base.{
  refl, ◌⊎◌, inl, inr, suc, ◌<◌, take, drop, ℕ, Bool, List, Bytes, ◌≡◌, ◌≢◌, ◌++◌, ◌∷◌, [], eqb,
  true, false, length, ℤ,
}
use ur_webif.Run.{Call, pure, raise, Does}

-- A result, or the message of an exception.
pub data Attempt (A : Type 0) : Type 0 where
  done : A → Attempt A
  threw : Bytes → Attempt A

abbrev pub attempt : {S A : Type 0} → Attempt A → Call S A
attempt (done a) = pure a
attempt (threw e) = raise e

pub Attempt-cases :
    {A : Type 0} (r : Attempt A) → ((a : A) × (r ≡ done a)) ⊎ ((m : Bytes) × (r ≡ threw m))
Attempt-cases (done a) = inl (a, refl)
Attempt-cases (threw m) = inr (m, refl)

pub record JsonLibrary (J : Type 0) : Type 0 where
  -- `file >> value`: what it leaves in the value, and whether it throws
  pub read_from : Bytes → J → J × Attempt (Unit {0})
  pub parse : Bytes → Attempt J
  pub dump : J → Attempt Bytes
  -- `json{}`, and conversions from a string, a Boolean, a number, and lists in braces
  pub null : J
  pub text : Bytes → J
  pub flag : Bool → J
  pub number : ℕ → J
  pub array : List J → J
  pub object : List (Bytes × J) → J
  pub empty : J → Bool
  pub is_array : J → Bool
  pub contains : J → Bytes → Bool
  -- `value[key]`: what it refers to, and the value after the call, which may have got the key
  pub member : J → Bytes → Attempt (J × J)
  -- `value[key] = element`
  pub assign : J → Bytes → J → Attempt J
  -- what `for (auto& element : value)` goes through, and the value with changed elements
  pub elements : J → List J
  pub with_elements : J → List J → J
  -- `value.items()`
  pub items : J → List (Bytes × J)
  pub push_back : J → J → Attempt J
  -- `value.erase(it)` for the iterator at a position
  pub erase : J → ℕ → Attempt J
  -- `value == string`
  pub equals : J → Bytes → Bool
  -- `value.value(key, default)` for a Boolean, and the conversion to `bool`
  pub value_flag : J → Bytes → Bool → Attempt Bool
  pub to_flag : J → Attempt Bool
  -- `value == flag`, the conversion to `std::string`, and `value.value(key, default)` for strings
  -- and for numbers of type `int`, as the 32 bits of the result
  pub equals_flag : J → Bool → Bool
  pub to_text : J → Attempt Bytes
  pub value_text : J → Bytes → Bytes → Attempt Bytes
  pub value_int : J → Bytes → ℕ → Attempt ℕ
  -- `value.is_string()`, and conversions from a number of type `int`
  pub is_string : J → Bool
  pub integer : ℤ → J

-- What the callers rely on.
pub record JsonLaws {J : Type 0} (lib : JsonLibrary J) : Type 0 where
  pub member-assign :
      (j j' v : J) (k : Bytes) → lib.assign j k v ≡ done j' → lib.member j' k ≡ done (v, j')
  pub member-assign_other :
      (j j' v w : J) (k l : Bytes)
      → lib.assign j k v ≡ done j'
      → k ≢ l
      → lib.member j l ≡ done (w, j)
      → lib.member j' l ≡ done (w, j')
  -- a value that has a member is an object
  pub assign-member :
      (j w v : J) (k l : Bytes)
      → lib.member j l ≡ done (w, j)
      → (j' : J) × (lib.assign j k v ≡ done j')
  pub contains-member :
      (j w : J) (l : Bytes) → lib.member j l ≡ done (w, j) → lib.contains j l ≡ true
  pub elements-with_elements :
      (j : J) (es : List J)
      → length es ≡ length (lib.elements j)
      → lib.elements (lib.with_elements j es) ≡ es
  pub is_array-with_elements :
      (j : J) (es : List J) → lib.is_array (lib.with_elements j es) ≡ lib.is_array j
  pub push_back-array :
      (j e : J)
      → lib.is_array j ≡ true
      → (j' : J) × (lib.push_back j e ≡ done j')
        × (lib.is_array j' ≡ true)
        × (lib.elements j' ≡ lib.elements j ++ e ∷ [])
  pub erase-array :
      (j : J) (i : ℕ)
      → lib.is_array j ≡ true
      → i < length (lib.elements j)
      → (j' : J) × (lib.erase j i ≡ done j')
        × (lib.is_array j' ≡ true)
        × (lib.elements j' ≡ take i (lib.elements j) ++ drop (suc i) (lib.elements j))
  pub equals-text : (s t : Bytes) → lib.equals (lib.text s) t ≡ eqb s t
  -- a list in braces of pairs is an object with these members
  pub member-object :
      (k : Bytes) (v : J) (more : List (Bytes × J))
      → lib.member (lib.object ((k, v) ∷ more)) k ≡ done (v, lib.object ((k, v) ∷ more))
  -- reading back what `dump` has written
  pub read-dump :
      (j x : J) (content : Bytes)
      → lib.dump j ≡ done content
      → lib.read_from content x ≡ (j, done tt)

pub Does-attempt :
    {S A : Type 0} {P E : S → Type 0} (r : Attempt A)
    → ((s : S) (m : Bytes) → P s → r ≡ threw m → E s)
    → Does P (attempt r) (λ a s. P s × (r ≡ done a)) E
Does-attempt (done a) h = record { run = λ s p. (p, refl) }
Does-attempt (threw m) h = record { run = λ s p. h s m p refl }

-- There is a result, and something holds of it.
pub record Gives {A : Type 0} (T : A → Type 0) (r : Attempt A) : Type 0 where
  pub value : A
  pub is : r ≡ done value
  pub holds : T value

pub Does-gives :
    {S A : Type 0} {P E : S → Type 0} {T : A → Type 0} {r : Attempt A}
    → Gives T r
    → Does P (attempt r) (λ a s. P s × T a) E
Does-gives {r = r} g = record { run = λ s p. rw g.is (p, g.holds) }

abbrev pub is_done : {A : Type 0} → Attempt A → Bool
is_done (done a) = true
is_done (threw m) = false
