-- ===== src/Base/GoMap.antt =====
-- Go's `map[string]V` as an association list. The order of the list is the order of a `range`
-- loop, which Go leaves open: a theorem about every list is a theorem about every such order.

use Prim.Native.String.{String}
use mathlib.Core.Path.{◌≡◌, refl}
use mathlib.Core.Logic.{◌≢◌, inl, inr}
use mathlib.Core.Bool.{Bool, true, false}
use mathlib.Core.Option.{Option, none, some}
use mathlib.Core.List.{List, [], ◌∷◌, map}
use native.Mathlib.Omega.{arith}
use text.Mathlib.Text.{◌==◌}
use text.Mathlib.TextEquality.{eq_iff}
use text.Mathlib.TextPositions.{eq_refl}
use osg_gateway.Base.Tests.{if◌then◌else◌, neg, is_some, Bool-cases, ne→==}
use osg_gateway.Base.Lists.{All, retain, All-retain}

abbrev pub GoMap {ℓ} : Type ℓ → Type ℓ
GoMap V = List (String × V)

module _ {ℓ} {V : Type ℓ} where
  -- v, ok := m[key]
  unfoldable pub lookup : String → GoMap V → Option V
  lookup key [] = none
  lookup key (entry ∷ rest) = if entry.0 == key then some entry.1 else lookup key rest

  -- m[key] = value
  unfoldable pub insert : String → V → GoMap V → GoMap V
  insert key value [] = (key, value) ∷ []
  insert key value (entry ∷ rest) =
      let later = insert key value rest in
      if entry.0 == key then (key, value) ∷ rest else entry ∷ later

  -- for k, v := range m { if drop(k, v) { delete(m, k) } }
  unfoldable pub delete_if : (String × V → Bool) → GoMap V → GoMap V
  delete_if p m = retain (λ e. neg (p e)) m

  -- delete(m, k)
  unfoldable pub delete : String → GoMap V → GoMap V
  unfolding delete_if
  delete k m = delete_if (λ e. k == e.0) m

  -- _, ok := m[k]
  abbrev pub has : String → GoMap V → Bool
  has k m = is_some (lookup k m)

  -- for _, v := range m { out = append(out, v) }
  abbrev pub values : GoMap V → List V
  values m = map (λ e. e.1) m

  pub lookup-insert :
      (key asked : String) (value : V) (m : GoMap V)
      → lookup asked (insert key value m) ≡ (if key == asked then some value else lookup asked m)
  unfolding insert lookup
  lookup-insert key asked value [] = refl
  lookup-insert key asked value (entry ∷ rest) =
      let ih = lookup-insert key asked value rest in
      ground (arith, ih, eq_iff entry.0 asked, eq_iff entry.0 key, eq_iff key asked)

  pub lookup-delete :
      (k j : String) (m : GoMap V) → lookup j (delete k m) ≡ (if k == j then none else lookup j m)
  unfolding lookup delete retain
  lookup-delete k j [] = ground arith
  lookup-delete k j ((i, w) ∷ m) =
      ground (arith, eq_iff k j, eq_iff k i, eq_iff i j, lookup-delete k j m)

  pub lookup-insert_self : (k : String) (v : V) (m : GoMap V) → lookup k (insert k v m) ≡ some v
  lookup-insert_self k v m = rw (lookup-insert, eq_refl)

  pub lookup-insert_ne :
      (k j : String) (v : V) (m : GoMap V) → k ≢ j → lookup j (insert k v m) ≡ lookup j m
  lookup-insert_ne k j v m h = rw (lookup-insert, ne→== k j h)

  pub lookup-delete_self : (k : String) (m : GoMap V) → lookup k (delete k m) ≡ none
  lookup-delete_self k m = rw (lookup-delete, eq_refl)

  pub lookup-delete_ne : (k j : String) (m : GoMap V) → k ≢ j → lookup j (delete k m) ≡ lookup j m
  lookup-delete_ne k j m h = rw (lookup-delete, ne→== k j h)

  pub has-insert :
      (k j : String) (v : V) (m : GoMap V) → has j m ≡ true → has j (insert k v m) ≡ true
  has-insert k j v m h = ground (arith, lookup-insert k j v m)

  pub has-delete :
      (k j : String) (m : GoMap V) → has j m ≡ true → (k == j) ≡ false → has j (delete k m) ≡ true
  has-delete k j m h ne = ground (arith, lookup-delete k j m)

  -- A map with one more entry: a look-up finds what was there, or nothing.
  pub lookup_of_has : (k : String) (m : GoMap V) → has k m ≡ true → (v : V) × (lookup k m ≡ some v)
  lookup_of_has k m h = ground arith

module _ {ℓ κ} {V : Type ℓ} (P : String × V → Type κ) where
  pub All-insert : (k : String) (v : V) (m : GoMap V) → All P m → P (k, v) → All P (insert k v m)
  unfolding insert
  All-insert k v [] h p = (p, tt)
  All-insert k v ((j, w) ∷ m) (q, h) p = elim (Bool-cases (j == k)) [
    | inl e ↦ rw e (p, h)
    | inr e ↦ rw e (q, All-insert k v m h p)
  ]

  pub All-lookup : (k : String) (m : GoMap V) {v : V} → All P m → lookup k m ≡ some v → P (k, v)
  unfolding lookup
  All-lookup k [] h e = cc
  All-lookup k ((j, w) ∷ m) {v} (q, h) e = elim (Bool-cases (j == k)) [
    | inl same ↦
        let path : ◌≡◌ {A = String × V} (j, w) (k, v) = ground (arith, eq_iff j k) in
        mathlib.Core.Path.subst P path q
    | inr other ↦ All-lookup k m h (ground arith)
  ]

  pub All-delete :
      (k : String) (m : GoMap V) → All P m → All (λ e. P e × (neg (k == e.0) ≡ true)) (delete k m)
  unfolding delete
  All-delete k m h = All-retain P (λ e. neg (k == e.0)) m h

  pub All-delete_if :
      (p : String × V → Bool) (m : GoMap V)
      → All P m
      → All (λ e. P e × (neg (p e) ≡ true)) (delete_if p m)
  unfolding delete_if
  All-delete_if p m h = All-retain P (λ e. neg (p e)) m h

-- A Go map has one entry for a key.
module _ {ℓ} {V : Type ℓ} where
  abbrev pub IsUnique : GoMap V → Type 0
  IsUnique [] = Unit
  IsUnique ((k, v) ∷ m) = (has k m ≡ false) × IsUnique m

  has-insert_other :
      (k j : String) (v : V) (m : GoMap V)
      → has j m ≡ false
      → (k == j) ≡ false
      → has j (insert k v m) ≡ false
  has-insert_other k j v m h e = ground (arith, lookup-insert k j v m)

  pub insert-IsUnique : (k : String) (v : V) (m : GoMap V) → IsUnique m → IsUnique (insert k v m)
  unfolding insert lookup
  insert-IsUnique k v [] h = (refl, tt)
  insert-IsUnique k v ((j, w) ∷ m) (new, h) = elim (Bool-cases (j == k)) [
    | inl e ↦ let same : j ≡ k = (eq_iff j k).0 e in rw e (rw (← same) new, h)
    | inr e ↦ rw e (
      has-insert_other k j v m new (ground (arith, eq_iff j k, eq_iff k j)),
      insert-IsUnique k v m h,
    )
  ]

  has-retain :
      (j : String) (p : String × V → Bool) (m : GoMap V)
      → has j m ≡ false
      → has j (retain p m) ≡ false
  unfolding retain lookup
  has-retain j p [] h = h
  has-retain j p ((i, w) ∷ m) h = ground (arith, has-retain j p m)

  pub delete_if-IsUnique :
      (p : String × V → Bool) (m : GoMap V) → IsUnique m → IsUnique (delete_if p m)
  unfolding delete_if retain
  delete_if-IsUnique p [] h = h
  delete_if-IsUnique p ((k, v) ∷ m) (new, h) = elim (Bool-cases (p (k, v))) [
    | inl e ↦ rw e (delete_if-IsUnique p m h)
    | inr e ↦ rw e (has-retain k _ m new, delete_if-IsUnique p m h)
  ]

module _ {ℓ κ} {V : Type ℓ} (P : String × V → Type κ) where
  -- What holds of every look-up holds of every entry.
  pub All-entries :
      (m : GoMap V) → IsUnique m → ((k : String) (v : V) → lookup k m ≡ some v → P (k, v)) → All P m
  unfolding lookup
  All-entries [] u f = tt
  All-entries ((j, w) ∷ m) (new, u) f = (
    f j w (rw eq_refl),
    All-entries m u (λ k v e. f k v (elim (Bool-cases (j == k)) [
      | inl same ↦ ground (arith, eq_iff j k)
      | inr other ↦ rw other e
    ])),
  )
