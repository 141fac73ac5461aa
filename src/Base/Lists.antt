-- ===== src/Base/Lists.antt =====
-- Lists measured and indexed by native numbers, and the slices of Python's byte strings.
use Prim.Native.Nat.{ℕ, zero, suc, ◌+◌, ◌-◌, ◌≤◌, min}
use mathlib.Core.Path.{◌≡◌, refl, ap, ap₂, ◌∙◌}
use mathlib.Core.List.{List, [], ◌∷◌, ◌++◌, map}
use mathlib.Core.Option.{Option, none, some}
use native.Mathlib.Omega.{arith}
use camera_ui_rpc.Base.Tests.{ltb, if◌then◌else◌}

pub add_suc_left : (m n : ℕ) → suc m + n ≡ suc (m + n)
add_suc_left m n = omega arith

pub add_suc : (m n : ℕ) → suc m + n ≡ m + suc n
add_suc m n = omega arith

module _ {ℓ} {A : Type ℓ} where
  abbrev pub length : List A → ℕ
  length [] = 0
  length (x ∷ xs) = suc (length xs)

  abbrev pub get_elem? : List A → ℕ → Option A
  get_elem? [] i = none
  get_elem? (x ∷ xs) zero = some x
  get_elem? (x ∷ xs) (suc i) = get_elem? xs i

  abbrev pub take : ℕ → List A → List A
  take zero xs = []
  take (suc n) [] = []
  take (suc n) (x ∷ xs) = x ∷ take n xs

  abbrev pub drop : ℕ → List A → List A
  drop zero xs = xs
  drop (suc n) [] = []
  drop (suc n) (x ∷ xs) = drop n xs

  abbrev pub replicate : ℕ → A → List A
  replicate zero a = []
  replicate (suc n) a = a ∷ replicate n a

  -- `xs[start:end]`
  abbrev pub slice : List A → ℕ → ℕ → List A
  slice xs start end = take (end - start) (drop start xs)

  -- `xs[start:end] = ys`
  abbrev pub splice : List A → ℕ → ℕ → List A → List A
  splice xs start end ys = take start xs ++ (ys ++ drop end xs)

  abbrev pub concat : List (List A) → List A
  concat [] = []
  concat (xs ∷ xss) = xs ++ concat xss

  pub length-append : (xs ys : List A) → length (xs ++ ys) ≡ length xs + length ys
  length-append [] ys = omega arith
  length-append (x ∷ xs) ys = omega (arith, length-append xs ys)

  pub length-take : (n : ℕ) (xs : List A) → length (take n xs) ≡ min n (length xs)
  length-take zero xs = omega arith
  length-take (suc n) [] = omega arith
  length-take (suc n) (x ∷ xs) = omega (arith, length-take n xs)

  pub length-drop : (n : ℕ) (xs : List A) → length (drop n xs) ≡ length xs - n
  length-drop zero xs = omega arith
  length-drop (suc n) [] = omega arith
  length-drop (suc n) (x ∷ xs) = omega (arith, length-drop n xs)

  pub length-replicate : (n : ℕ) (a : A) → length (replicate n a) ≡ n
  length-replicate zero a = refl
  length-replicate (suc n) a = ap suc (length-replicate n a)

  pub take-append-drop : (n : ℕ) (xs : List A) → take n xs ++ drop n xs ≡ xs
  take-append-drop zero xs = refl
  take-append-drop (suc n) [] = refl
  take-append-drop (suc n) (x ∷ xs) = rw (take-append-drop n xs)

  drop_nil : (n : ℕ) → let none_left : List A = [] in drop n none_left ≡ none_left
  drop_nil zero = refl
  drop_nil (suc n) = refl

  pub drop-drop : (m n : ℕ) (xs : List A) → drop n (drop m xs) ≡ drop (m + n) xs
  drop-drop zero n xs = ap (λ k. drop k xs) (omega arith)
  drop-drop (suc m) n [] = drop_nil n ∙ rw (add_suc_left m n)
  drop-drop (suc m) n (x ∷ xs) = rw (add_suc_left m n) (drop-drop m n xs)

  pub take_all : (n : ℕ) (xs : List A) → length xs ≤ n → take n xs ≡ xs
  take_all zero [] h = refl
  take_all zero (x ∷ xs) h = absurd (omega arith)
  take_all (suc n) [] h = refl
  take_all (suc n) (x ∷ xs) h = ap (◌∷◌ x) (take_all n xs (omega arith))

  pub drop_all : (n : ℕ) (xs : List A) → length xs ≤ n → drop n xs ≡ []
  drop_all zero [] h = refl
  drop_all zero (x ∷ xs) h = absurd (omega arith)
  drop_all (suc n) [] h = refl
  drop_all (suc n) (x ∷ xs) h = drop_all n xs (omega arith)

  pub take-append : (xs ys : List A) → take (length xs) (xs ++ ys) ≡ xs
  take-append [] ys = refl
  take-append (x ∷ xs) ys = ap (◌∷◌ x) (take-append xs ys)

  pub drop-append : (xs ys : List A) → drop (length xs) (xs ++ ys) ≡ ys
  drop-append [] ys = refl
  drop-append (x ∷ xs) ys = drop-append xs ys

module _ {ℓ} {A : Type ℓ} where
  pub get_elem?-append :
      (xs ys : List A) (p : ℕ)
      → get_elem? (xs ++ ys) p
        ≡ (if ltb p (length xs) then get_elem? xs p else get_elem? ys (p - length xs))
  get_elem?-append [] ys p = ground arith
  get_elem?-append (x ∷ xs) ys zero = ground arith
  get_elem?-append (x ∷ xs) ys (suc p) = ground (arith, get_elem?-append xs ys p)

  pub get_elem?-take :
      (n : ℕ) (xs : List A) (p : ℕ)
      → get_elem? (take n xs) p ≡ (if ltb p n then get_elem? xs p else none)
  get_elem?-take zero xs p = ground arith
  get_elem?-take (suc n) [] p = ground arith
  get_elem?-take (suc n) (x ∷ xs) zero = ground arith
  get_elem?-take (suc n) (x ∷ xs) (suc p) = ground (arith, get_elem?-take n xs p)

  pub get_elem?-drop :
      (n : ℕ) (xs : List A) (p : ℕ) → get_elem? (drop n xs) p ≡ get_elem? xs (n + p)
  get_elem?-drop zero xs p = ap (get_elem? xs) (omega arith)
  get_elem?-drop (suc n) [] p = refl
  get_elem?-drop (suc n) (x ∷ xs) p = rw (add_suc_left n p) (get_elem?-drop n xs p)

  -- Two lists that agree at every position are equal.
  pub get_elem?_ext : (xs ys : List A) → ((p : ℕ) → get_elem? xs p ≡ get_elem? ys p) → xs ≡ ys
  get_elem?_ext [] [] h = refl
  get_elem?_ext [] (y ∷ ys) h = cc (h 0)
  get_elem?_ext (x ∷ xs) [] h = cc (h 0)
  get_elem?_ext (x ∷ xs) (y ∷ ys) h =
      ap₂ ◌∷◌ (ground (arith, h 0)) (get_elem?_ext xs ys (λ p. h (suc p)))

  pub get_elem?-none : (xs : List A) (p : ℕ) → length xs ≤ p → get_elem? xs p ≡ none
  get_elem?-none [] p h = refl
  get_elem?-none (x ∷ xs) zero h = absurd (omega arith)
  get_elem?-none (x ∷ xs) (suc p) h = get_elem?-none xs p (omega arith)

module _ {A : Type 0} where
  -- A write inside a buffer changes the bytes that it covers and no other.
  pub get_elem?-splice :
      (xs ys : List A) (start p : ℕ)
      → start + length ys ≤ length xs
      → get_elem? (splice xs start (start + length ys) ys) p ≡ (
          if ltb p start
          then get_elem? xs p
          else if ltb p (start + length ys)
          then get_elem? ys (p - start)
          else get_elem? xs p)
  get_elem?-splice xs ys start p h =
      let front : length (take start xs) ≡ start = omega (arith, length-take start xs) in
      ground (
        arith,
        front,
        get_elem?-append (take start xs) (ys ++ drop (start + length ys) xs) p,
        get_elem?-append ys (drop (start + length ys) xs) (p - start),
        get_elem?-take start xs p,
        get_elem?-drop (start + length ys) xs (p - start - length ys),
      )

  pub length-splice :
      (xs ys : List A) (start : ℕ)
      → start + length ys ≤ length xs
      → length (splice xs start (start + length ys) ys) ≡ length xs
  length-splice xs ys start h = omega (
    arith,
    length-append (take start xs) (ys ++ drop (start + length ys) xs),
    length-append ys (drop (start + length ys) xs),
    length-take start xs,
    length-drop (start + length ys) xs,
  )

  pub length-slice :
      (xs : List A) (start end : ℕ) → end ≤ length xs → length (slice xs start end) ≡ end - start
  length-slice xs start end h =
      omega (arith, length-take (end - start) (drop start xs), length-drop start xs)

  pub get_elem?-slice :
      (xs : List A) (start end p : ℕ)
      → get_elem? (slice xs start end) p
        ≡ (if ltb p (end - start) then get_elem? xs (start + p) else none)
  get_elem?-slice xs start end p =
      rw (get_elem?-take (end - start) (drop start xs) p, get_elem?-drop start xs p)

pub length-le_of_none {ℓ} :
    {A : Type ℓ} (xs : List A) (p : ℕ) → get_elem? xs p ≡ none → length xs ≤ p
length-le_of_none [] p h = omega arith
length-le_of_none (x ∷ xs) zero h = cc h
length-le_of_none (x ∷ xs) (suc p) h = omega (arith, length-le_of_none xs p h)

pub map-append {ℓ κ} :
    {A : Type ℓ} {B : Type κ} (f : A → B) (xs ys : List A) → map f (xs ++ ys) ≡ map f xs ++ map f ys
map-append f [] ys = refl
map-append f (x ∷ xs) ys = ap (◌∷◌ (f x)) (map-append f xs ys)
