-- ===== src/Base/Sets.antt =====
-- Facts on Python sets of numbers: distinct elements below a bound are no more than the bound.
use mathlib.Core.Path.{◌≡◌, refl}
use mathlib.Core.Logic.{inl, inr}
use mathlib.Core.Bool.{true, false}
use mathlib.Core.List.{List, [], ◌∷◌}
use native.Mathlib.Omega.{arith}
use Prim.Native.Nat.{ℕ, zero, suc, ◌≤◌, ◌<◌}
use camera_ui_rpc.Base.Tests.{Bool-cases, ℕ_eq, if◌then◌else◌, nat_eq}
use camera_ui_rpc.Base.Lists.{length}
use camera_ui_rpc.Base.Dict.{contains, add}

-- No element stands in the list twice.
abbrev pub Distinct : List ℕ → Type 0
Distinct [] = Unit
Distinct (x ∷ s) = (contains x s ≡ false) × Distinct s

abbrev pub AllBelow : ℕ → List ℕ → Type 0
AllBelow n [] = Unit
AllBelow n (x ∷ s) = (x < n) × AllBelow n s

-- `s.discard(k)`
unfoldable pub discard : ℕ → List ℕ → List ℕ
discard k [] = []
discard k (x ∷ s) = let rest = discard k s in if nat_eq x k then rest else x ∷ rest

contains-discard : (k x : ℕ) (s : List ℕ) → contains x s ≡ false → contains x (discard k s) ≡ false
unfolding contains discard
contains-discard k x [] h = refl
contains-discard k x (y ∷ s) h = ground (arith, contains-discard k x s)

discard-Distinct : (k : ℕ) (s : List ℕ) → Distinct s → Distinct (discard k s)
unfolding discard
discard-Distinct k [] d = tt
discard-Distinct k (x ∷ s) d = ground (arith, discard-Distinct k s d.1, contains-discard k x s d.0)

discard-AllBelow : (k : ℕ) (s : List ℕ) → AllBelow (suc k) s → AllBelow k (discard k s)
unfolding discard
discard-AllBelow k [] b = tt
discard-AllBelow k (x ∷ s) b = ground (arith, discard-AllBelow k s b.1)

discard_missing : (k : ℕ) (s : List ℕ) → contains k s ≡ false → length (discard k s) ≡ length s
unfolding discard contains
discard_missing k [] h = refl
discard_missing k (x ∷ s) h = ground (arith, discard_missing k s)

length-le-discard : (k : ℕ) (s : List ℕ) → Distinct s → length s ≤ suc (length (discard k s))
unfolding discard
length-le-discard k [] d = omega arith
length-le-discard k (x ∷ s) d = elim (Bool-cases (nat_eq x k)) [
  | inl hit ↦ ground (arith, hit, discard_missing x s d.0)
  | inr miss ↦ rw miss (omega (arith, length-le-discard k s d.1))
]

pub length-le_bound : (n : ℕ) (s : List ℕ) → Distinct s → AllBelow n s → length s ≤ n
length-le_bound zero [] d b = omega arith
length-le_bound zero (x ∷ s) d b = absurd (omega arith)
length-le_bound (suc n) s d b = omega (
  arith,
  length-le-discard n s d,
  length-le_bound n (discard n s) (discard-Distinct n s d) (discard-AllBelow n s b),
)

-- `n` distinct numbers below `n` are all of them.
pub contains_of_full :
    (n : ℕ) (s : List ℕ) (i : ℕ)
    → Distinct s
    → AllBelow n s
    → length s ≡ n
    → i < n
    → contains i s ≡ true
contains_of_full n s i d b full lt = elim (Bool-cases (contains i s)) [
  | inl here ↦ here
  | inr gone ↦ absurd (omega (arith, length-le_bound n (i ∷ s) (gone, d) (lt, b)))
]

pub add-Distinct : (k : ℕ) (s : List ℕ) → Distinct s → Distinct (add k s)
unfolding add
add-Distinct k s d = ground arith

pub add-AllBelow : (n k : ℕ) (s : List ℕ) → k < n → AllBelow n s → AllBelow n (add k s)
unfolding add
add-AllBelow n k s lt b = ground arith

contains-discard_ne :
    (k x : ℕ) (s : List ℕ) → x < k → contains x s ≡ true → contains x (discard k s) ≡ true
unfolding contains discard
contains-discard_ne k x [] lt h = cc
contains-discard_ne k x (y ∷ s) lt h = ground (arith, contains-discard_ne k x s)

length-discard :
    (k : ℕ) (s : List ℕ) → Distinct s → contains k s ≡ true → length s ≡ suc (length (discard k s))
unfolding contains discard
length-discard k [] d h = cc
length-discard k (x ∷ s) d h = elim (Bool-cases (nat_eq x k)) [
  | inl hit ↦ ground (arith, hit, discard_missing x s d.0)
  | inr miss ↦ rw miss (ground (arith, miss, length-discard k s d.1))
]

-- A set of numbers below `n` that has all of them has `n` elements.
pub full_of_contains :
    (n : ℕ) (s : List ℕ)
    → Distinct s
    → AllBelow n s
    → ((i : ℕ) → i < n → contains i s ≡ true)
    → length s ≡ n
full_of_contains zero [] d b all = refl
full_of_contains zero (x ∷ s) d b all = absurd (omega arith)
full_of_contains (suc k) s d b all = omega (
  arith,
  length-discard k s d (all k (omega arith)),
  full_of_contains k (discard k s) (discard-Distinct k s d) (discard-AllBelow k s b)
      (λ i lt. contains-discard_ne k i s lt (all i (omega arith))),
)
