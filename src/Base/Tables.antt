-- ===== src/Base/Tables.antt =====
-- `std::map` and `std::unordered_map` with numbers as keys.
use Prim.Native.Nat.{ℕ, suc, ◌-◌, ◌<◌}
use mathlib.Core.Path.{◌≡◌, refl, sym, ap, ◌∙◌}
use mathlib.Core.Logic.{inl, inr}
use mathlib.Core.List.{List, [], ◌∷◌}
use mathlib.Core.Option.{Option, none, some}
use native.Mathlib.Omega.{arith}
use ur_webif.Base.Tests.{◌==◌, ==_iff, if◌then◌else◌, Bool-cases}
use ur_webif.Base.Lists.{length}

abbrev pub Table {ℓ} : Type ℓ → Type ℓ
Table V = List (ℕ × V)

module _ {ℓ} {V : Type ℓ} where
  unfoldable pub get : ℕ → Table V → Option V
  get k [] = none
  get k ((j, v) ∷ m) = if j == k then some v else get k m

  unfoldable pub put : ℕ → V → Table V → Table V
  put k v [] = (k, v) ∷ []
  put k v ((j, w) ∷ m) = if j == k then (k, v) ∷ m else (j, w) ∷ put k v m

  unfoldable pub remove : ℕ → Table V → Table V
  remove k [] = []
  remove k ((j, w) ∷ m) = if j == k then remove k m else (j, w) ∷ remove k m

  -- No key has two entries.
  abbrev pub IsTable : Table V → Type ℓ
  IsTable [] = Unit
  IsTable ((k, v) ∷ m) = (get k m ≡ none) × IsTable m

module _ {ℓ} {V : Type ℓ} where
  pub get-put :
      (k j : ℕ) (v : V) (m : Table V) → get j (put k v m) ≡ (if k == j then some v else get j m)
  unfolding get put
  get-put k j v [] = refl
  get-put k j v ((i, w) ∷ m) = ground (arith, get-put k j v m)

  pub get-remove : (k j : ℕ) (m : Table V) → get j (remove k m) ≡ (if k == j then none else get j m)
  unfolding get remove
  get-remove k j [] = ground arith
  get-remove k j ((i, w) ∷ m) = ground (arith, get-remove k j m)

  pub IsTable-put : (k : ℕ) (v : V) (m : Table V) → IsTable m → IsTable (put k v m)
  unfolding get put
  IsTable-put k v [] h = (refl, tt)
  IsTable-put k v ((j, w) ∷ m) h = elim (Bool-cases (j == k)) [
    | inl same ↦ ground (arith, ==_iff j k, same, h.0)
    | inr other ↦ rw other (
      get-put k j v m ∙ ground (arith, ==_iff j k, ==_iff k j, other, h.0),
      IsTable-put k v m h.1,
    )
  ]

  pub IsTable-remove : (k : ℕ) (m : Table V) → IsTable m → IsTable (remove k m)
  unfolding get remove
  IsTable-remove k [] h = tt
  IsTable-remove k ((j, w) ∷ m) h = ground (arith, IsTable-remove k m h.1, get-remove k j m, h.0)

  pub length-put_new :
      (k : ℕ) (v : V) (m : Table V) → get k m ≡ none → length (put k v m) ≡ suc (length m)
  unfolding get put
  length-put_new k v [] h = refl
  length-put_new k v ((j, w) ∷ m) h = ground (arith, length-put_new k v m)

  remove-absent : (k : ℕ) (m : Table V) → get k m ≡ none → remove k m ≡ m
  unfolding get remove
  remove-absent k [] h = refl
  remove-absent k ((j, w) ∷ m) h = ground (arith, remove-absent k m)

  pub length-remove :
      (k : ℕ) (v : V) (m : Table V)
      → IsTable m
      → get k m ≡ some v
      → length (remove k m) ≡ length m - 1
  unfolding get remove
  length-remove k v [] h g = ground (arith, g)
  length-remove k v ((j, w) ∷ m) h g = elim (Bool-cases (j == k)) [
    | inl same ↦
        (let e = (==_iff j k).0 same in
          let gone = ap length (remove-absent k m (ap (λ (i : ℕ). get i m) (sym e) ∙ h.0)) in
          rw same (omega (arith, gone)))
    | inr other ↦
        (let g' = rw other at g in
          let shorter = length-remove k v m h.1 g' in
          rw other (omega (arith, shorter, length-get k v m g')))
  ]
    where
      length-get : (k : ℕ) (v : V) (m : Table V) → get k m ≡ some v → 0 < length m
      length-get k v [] g = ground (arith, g)
      length-get k v (x ∷ m) g = omega arith
