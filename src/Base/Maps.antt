-- ===== src/Base/Maps.antt =====
-- `std::unordered_map<std::string, V>` as an association list with one entry for each key.
use mathlib.Core.Path.{◌≡◌, refl, ◌∙◌}
use mathlib.Core.Logic.{inl, inr}
use mathlib.Core.Bool.{Bool, false}
use mathlib.Core.List.{List, [], ◌∷◌}
use mathlib.Core.Option.{Option, none, some}
use native.Mathlib.Omega.{arith}
use ur_webif.Base.Tests.{if◌then◌else◌, Bool-cases}
use ur_webif.Base.Text.{Bytes, eqb, eqb_iff, eqb_refl}

abbrev pub Assoc {ℓ} : Type ℓ → Type ℓ
Assoc V = List (Bytes × V)

module _ {ℓ} {V : Type ℓ} where
  -- `find`; `none` is `end()`.
  unfoldable pub lookup : Bytes → Assoc V → Option V
  lookup k [] = none
  lookup k ((j, v) ∷ m) = if eqb j k then some v else lookup k m

  -- `m[k] = v`.
  unfoldable pub insert : Bytes → V → Assoc V → Assoc V
  insert k v [] = (k, v) ∷ []
  insert k v ((j, w) ∷ m) = if eqb j k then (k, v) ∷ m else (j, w) ∷ insert k v m

  -- `m.erase(k)`.
  unfoldable pub erase : Bytes → Assoc V → Assoc V
  erase k [] = []
  erase k ((j, w) ∷ m) = if eqb j k then erase k m else (j, w) ∷ erase k m

  -- The loop that erases every entry whose value does not pass the test.
  unfoldable pub retain : (V → Bool) → Assoc V → Assoc V
  retain p [] = []
  retain p ((j, w) ∷ m) = if p w then (j, w) ∷ retain p m else retain p m

module _ {ℓ} {V : Type ℓ} where
  pub lookup-insert :
      (k j : Bytes) (v : V) (m : Assoc V)
      → lookup j (insert k v m) ≡ (if eqb k j then some v else lookup j m)
  unfolding lookup insert
  lookup-insert k j v [] = refl
  lookup-insert k j v ((i, w) ∷ m) =
      ground (arith, eqb_iff k j, eqb_iff i k, eqb_iff i j, lookup-insert k j v m)

  pub lookup-insert_self : (k : Bytes) (v : V) (m : Assoc V) → lookup k (insert k v m) ≡ some v
  lookup-insert_self k v m = rw (lookup-insert k k v m, eqb_refl k)

  pub lookup-insert_ne :
      (k j : Bytes) (v : V) (m : Assoc V) → eqb k j ≡ false → lookup j (insert k v m) ≡ lookup j m
  lookup-insert_ne k j v m h = rw (lookup-insert k j v m, h)

  pub lookup-erase :
      (k j : Bytes) (m : Assoc V) → lookup j (erase k m) ≡ (if eqb k j then none else lookup j m)
  unfolding lookup erase
  lookup-erase k j [] = ground arith
  lookup-erase k j ((i, w) ∷ m) =
      ground (arith, eqb_iff k j, eqb_iff i k, eqb_iff i j, lookup-erase k j m)

  pub lookup-erase_self : (k : Bytes) (m : Assoc V) → lookup k (erase k m) ≡ none
  lookup-erase_self k m = rw (lookup-erase k k m, eqb_refl k)

module _ {ℓ} {V : Type ℓ} where
  -- No key has two entries.
  abbrev pub IsMap : Assoc V → Type ℓ
  IsMap [] = Unit
  IsMap ((k, v) ∷ m) = (lookup k m ≡ none) × IsMap m

  abbrev pub if_passes : (V → Bool) → Option V → Option V
  if_passes p none = none
  if_passes p (some v) = if p v then some v else none

module _ {ℓ} {V : Type ℓ} where
  retain_absent :
      (p : V → Bool) (k : Bytes) (m : Assoc V) → lookup k m ≡ none → lookup k (retain p m) ≡ none
  unfolding lookup retain
  retain_absent p k [] h = refl
  retain_absent p k ((j, w) ∷ m) h = ground (arith, retain_absent p k m)

  pub lookup-retain :
      (p : V → Bool) (k : Bytes) (m : Assoc V)
      → IsMap m
      → lookup k (retain p m) ≡ if_passes p (lookup k m)
  unfolding lookup retain
  lookup-retain p k [] h = refl
  lookup-retain p k ((j, w) ∷ m) h =
      ground (arith, lookup-retain p k m h.1, retain_absent p k m, eqb_iff j k, h.0)

  pub IsMap-insert : (k : Bytes) (v : V) (m : Assoc V) → IsMap m → IsMap (insert k v m)
  unfolding lookup insert
  IsMap-insert k v [] h = (refl, tt)
  IsMap-insert k v ((j, w) ∷ m) h = elim (Bool-cases (eqb j k)) [
    | inl same ↦ ground (arith, eqb_iff j k, same, h.0)
    | inr other ↦ rw other (
      lookup-insert k j v m ∙ ground (arith, eqb_iff j k, eqb_iff k j, other, h.0),
      IsMap-insert k v m h.1,
    )
  ]

  pub IsMap-erase : (k : Bytes) (m : Assoc V) → IsMap m → IsMap (erase k m)
  unfolding lookup erase
  IsMap-erase k [] h = tt
  IsMap-erase k ((j, w) ∷ m) h =
      ground (arith, IsMap-erase k m h.1, lookup-erase k j m, eqb_iff k j, eqb_iff j k, h.0)

  pub IsMap-retain : (p : V → Bool) (m : Assoc V) → IsMap m → IsMap (retain p m)
  unfolding lookup retain
  IsMap-retain p [] h = tt
  IsMap-retain p ((j, w) ∷ m) h = ground (arith, IsMap-retain p m h.1, retain_absent p j m h.0)
