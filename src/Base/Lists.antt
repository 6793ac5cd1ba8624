-- ===== src/Base/Lists.antt =====
-- Lists measured by native numbers, under the library's names, and a predicate on all items.
use Prim.Native.Nat.{ℕ, zero, suc, ◌+◌, ◌-◌, ◌≤◌}
use mathlib.Core.Path.{◌≡◌, refl, ap, sym, ◌∙◌}
use mathlib.Core.Logic.{inl, inr}
use mathlib.Core.Bool.{Bool, true}
use mathlib.Core.List.{List, [], ◌∷◌, ◌++◌}
use native.Mathlib.Omega.{arith}
use osg_gateway.Base.Tests.{if◌then◌else◌, Bool-cases}

module _ {ℓ} {A : Type ℓ} where
  abbrev pub length : List A → ℕ
  length [] = 0
  length (x ∷ xs) = suc (length xs)

  abbrev pub drop : ℕ → List A → List A
  drop zero xs = xs
  drop (suc n) [] = []
  drop (suc n) (x ∷ xs) = drop n xs

  abbrev pub take : ℕ → List A → List A
  take zero xs = []
  take (suc n) [] = []
  take (suc n) (x ∷ xs) = x ∷ take n xs

  pub length-append : (xs ys : List A) → length (xs ++ ys) ≡ length xs + length ys
  length-append [] ys = omega arith
  length-append (x ∷ xs) ys = omega (arith, length-append xs ys)

  pub length-drop : (n : ℕ) (xs : List A) → length (drop n xs) ≡ length xs - n
  length-drop zero xs = omega arith
  length-drop (suc n) [] = omega arith
  length-drop (suc n) (x ∷ xs) = omega (arith, length-drop n xs)

  pub take-append-drop : (n : ℕ) (xs : List A) → take n xs ++ drop n xs ≡ xs
  take-append-drop zero xs = refl
  take-append-drop (suc n) [] = refl
  take-append-drop (suc n) (x ∷ xs) = ap (λ r. x ∷ r) (take-append-drop n xs)

  pub drop-append : (n : ℕ) (xs ys : List A) → n ≤ length xs → drop n (xs ++ ys) ≡ drop n xs ++ ys
  drop-append zero xs ys h = refl
  drop-append (suc n) [] ys h = absurd (omega arith)
  drop-append (suc n) (x ∷ xs) ys h = drop-append n xs ys (omega arith)

  pub drop-nil : (n : ℕ) → ◌≡◌ {A = List A} (drop n []) []
  drop-nil zero = refl
  drop-nil (suc n) = refl

  pub drop-drop : (n m : ℕ) (xs : List A) → drop n (drop m xs) ≡ drop (m + n) xs
  drop-drop n zero xs = ap (λ k. drop k xs) (omega arith)
  drop-drop n (suc m) [] = drop-nil n ∙ sym (drop-nil (suc m + n))
  drop-drop n (suc m) (x ∷ xs) =
      let e : suc m + n ≡ suc (m + n) = omega arith in
      drop-drop n m xs ∙ ap (λ k. drop k (x ∷ xs)) (sym e)

module _ {ℓ} {A : Type ℓ} where
  pub take-append :
      (n : ℕ) (xs ys : List A) → length xs ≤ n → take n (xs ++ ys) ≡ xs ++ take (n - length xs) ys
  take-append n [] ys h = ap (λ k. take k ys) (omega arith)
  take-append zero (x ∷ xs) ys h = absurd (omega arith)
  take-append (suc n) (x ∷ xs) ys h =
      let e : n - length xs ≡ suc n - suc (length xs) = omega arith in
      ap (λ r. x ∷ r) (take-append n xs ys (omega arith) ∙ ap (λ k. xs ++ take k ys) e)

  pub take-append_left : (n : ℕ) (xs ys : List A) → n ≤ length xs → take n (xs ++ ys) ≡ take n xs
  take-append_left zero xs ys h = refl
  take-append_left (suc n) [] ys h = absurd (omega arith)
  take-append_left (suc n) (x ∷ xs) ys h = ap (λ r. x ∷ r) (take-append_left n xs ys (omega arith))

  pub length-take : (n : ℕ) (xs : List A) → length (take n xs) ≤ n
  length-take zero xs = omega arith
  length-take (suc n) [] = omega arith
  length-take (suc n) (x ∷ xs) = omega (arith, length-take n xs)

-- The last `k` items of a list.
abbrev pub newest {ℓ} : {A : Type ℓ} → ℕ → List A → List A
newest k xs = drop (length xs - k) xs

pub newest-append {ℓ} :
    {A : Type ℓ} (k : ℕ) (xs ys : List A) → newest k (newest k xs ++ ys) ≡ newest k (xs ++ ys)
newest-append k xs ys =
    let here : length xs - k ≤ length xs = omega arith in
    let count : length (drop (length xs - k) xs ++ ys) ≡ (length xs - (length xs - k)) + length ys =
      omega (arith, length-append (drop (length xs - k) xs) ys, length-drop (length xs - k) xs) in
    let total : (length xs - k) + (length (drop (length xs - k) xs ++ ys) - k)
        ≡ length (xs ++ ys) - k =
      omega (arith, length-append xs ys) in
    ap (drop (length (drop (length xs - k) xs ++ ys) - k))
      (sym (drop-append (length xs - k) xs ys here))
    ∙ drop-drop (length (drop (length xs - k) xs ++ ys) - k) (length xs - k) (xs ++ ys)
    ∙ ap (λ n. drop n (xs ++ ys)) total

pub length-newest {ℓ} : {A : Type ℓ} (k : ℕ) (xs : List A) → length (newest k xs) ≤ k
length-newest k xs = omega (arith, length-drop (length xs - k) xs)

-- The items that pass a test, in their order.
module _ {ℓ} {A : Type ℓ} (p : A → Bool) where
  unfoldable pub retain : List A → List A
  retain [] = []
  retain (x ∷ xs) = if p x then x ∷ retain xs else retain xs

  pub length-retain : (xs : List A) → length (retain xs) ≤ length xs
  unfolding retain
  length-retain [] = omega arith
  length-retain (x ∷ xs) = ground (arith, length-retain xs)

module _ {ℓ κ} {A : Type ℓ} (P : A → Type κ) where
  abbrev pub All : List A → Type κ
  All [] = Unit
  All (x ∷ xs) = P x × All xs

module _ {ℓ κ} {A : Type ℓ} (P : A → Type κ) where
  pub All-append : (xs ys : List A) → All P xs → All P ys → All P (xs ++ ys)
  All-append [] ys h k = k
  All-append (x ∷ xs) ys (p, h) k = (p, All-append xs ys h k)

  pub All-drop : (n : ℕ) (xs : List A) → All P xs → All P (drop n xs)
  All-drop zero xs h = h
  All-drop (suc n) [] h = h
  All-drop (suc n) (x ∷ xs) (p, h) = All-drop n xs h

module _ {ℓ κ μ} {A : Type ℓ} (P : A → Type κ) (Q : A → Type μ) where
  pub All-map : ((a : A) → P a → Q a) → (xs : List A) → All P xs → All Q xs
  All-map f [] h = tt
  All-map f (x ∷ xs) (p, h) = (f x p, All-map f xs h)

module _ {ℓ κ} {A : Type ℓ} (P : A → Type κ) (p : A → Bool) where
  pub All-retain : (xs : List A) → All P xs → All (λ a. P a × (p a ≡ true)) (retain p xs)
  unfolding retain
  All-retain [] h = tt
  All-retain (x ∷ xs) (q, h) = elim (Bool-cases (p x)) [
    | inl e ↦ rw e ((q, e), All-retain xs h)
    | inr e ↦ rw e (All-retain xs h)
  ]

pub All-trivial {ℓ} : {A : Type ℓ} (xs : List A) → All (λ a. Unit {0}) xs
All-trivial [] = tt
All-trivial (x ∷ xs) = (tt, All-trivial xs)
