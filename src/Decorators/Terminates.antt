-- ===== src/Decorators/Terminates.antt =====
-- The extraction of decorators.py ends, whatever circles the objects form.
use camera_ui_rpc.Base.{
  ℕ, zero, suc, ◌+◌, ◌≤◌, ◌<◌, ◌≡◌, refl, String, Option, some, List, [], ◌∷◌, ◌++◌, ℕ_eq,
  String_eq, arith, length, inl, inr, Bool-cases,
}
use camera_ui_rpc.Base.Dict.{contains}
use camera_ui_rpc.Base.Sets.{Distinct, AllBelow, length-le_bound}
use camera_ui_rpc.Decorators.{Object, Exposure, exposes, descends, exposures}
use camera_ui_rpc.Decorators.Extracted.{Extraction, new_extraction, and_then, extract_all, extract}

-- the objects that are descended into are numbered below `n`
abbrev pub DescendsBelow : ℕ → List (String × Exposure) → Type 0
DescendsBelow n [] = Unit
DescendsBelow n ((name, exposes h) ∷ es) = DescendsBelow n es
DescendsBelow n ((name, descends self) ∷ es) = (self < n) × DescendsBelow n es

-- the visited objects are distinct and below `n`, and no fewer than `k`
record IsBounded (n k : ℕ) (s : Extraction) : Type 0 where
  distinct : Distinct s.visited
  below : AllBelow n s.visited
  enough : k ≤ length s.visited

Returns : ℕ → ℕ → Option Extraction → Type 0
Returns n k r = (s : Extraction) × (r ≡ some s) × IsBounded n k s

and_then-Returns :
    (n k : ℕ) (r : Option Extraction) (rest : Extraction → Option Extraction)
    → Returns n k r
    → ((s : Extraction) → IsBounded n k s → Returns n k (rest s))
    → Returns n k (and_then r rest)
unfolding Returns
and_then-Returns n k r rest (s, same, b) next = rw same (next s b)

extract_all-Returns :
    (n k : ℕ) (extract_from : List String → ℕ → Extraction → Option Extraction)
    → ((path : List String) (self : ℕ) (s : Extraction)
        → self < n
        → IsBounded n k s
        → Returns n k (extract_from path self s))
    → (path : List String) (es : List (String × Exposure)) (s : Extraction) → DescendsBelow n es
    → IsBounded n k s
    → Returns n k (extract_all extract_from path es s)
unfolding Returns
extract_all-Returns n k extract_from returns path [] s d b = (s, refl, b)
extract_all-Returns n k extract_from returns path ((name, exposes h) ∷ es) s d b =
    extract_all-Returns n k extract_from returns path es _ d
      (record { distinct = b.distinct; below = b.below; enough = b.enough })
extract_all-Returns n k extract_from returns path ((name, descends self) ∷ es) s d b =
    and_then-Returns n k (extract_from (path ++ name ∷ []) self s)
      (λ s'. extract_all extract_from path es s') (returns (path ++ name ∷ []) self s d.0 b)
      (λ s' b'. extract_all-Returns n k extract_from returns path es s' d.1 b')

module _ (heap : ℕ → Object) (n : ℕ)
    (closed : (self : ℕ) → self < n → DescendsBelow n (exposures heap self)) where
  weakened : (k : ℕ) (r : Option Extraction) → Returns n (suc k) r → Returns n k r
  unfolding Returns
  weakened k r (s, same, b) =
      (s, same, record { distinct = b.distinct; below = b.below; enough = omega (arith, b.enough) })

  extract-Returns :
      (fuel k : ℕ)
      → n < fuel + k
      → (path : List String) (self : ℕ) (s : Extraction) → self < n
      → IsBounded n k s
      → Returns n k (extract heap fuel path self s)
  unfolding extract Returns
  extract-Returns zero k enough path self s lt b =
      absurd (omega (arith, length-le_bound n s.visited b.distinct b.below, b.enough, enough))
  extract-Returns (suc fuel) k enough path self s lt b =
      elim (Bool-cases (contains self s.visited)) [
        | inl seen ↦ rw seen (s, refl, b)
        | inr new ↦ rw new (
            weakened k _ (
              extract_all-Returns n (suc k) (extract heap fuel)
                (extract-Returns fuel (suc k) (omega (arith, enough))) path (exposures heap self)
                (record s { visited = self ∷ s.visited }) (closed self lt)
                (record {
                  distinct = (new, b.distinct);
                  below = (lt, b.below);
                  enough = omega (arith, b.enough);
                })))
      ]

-- Take finitely many objects, of which none leads to an object outside. The extraction of the methods
-- of one of them returns, however they hold one another, with a recursion no deeper than one more
-- than their number.
pub extraction_returns :
    (heap : ℕ → Object) (n self : ℕ)
    → ((other : ℕ) → other < n → DescendsBelow n (exposures heap other))
    → self < n
    → (s : Extraction) × (extract heap (suc n) [] self new_extraction ≡ some s)
unfolding Returns
extraction_returns heap n self closed lt =
    let (s, same, b) =
      extract-Returns heap n closed (suc n) 0 (omega arith) [] self new_extraction lt
        (record { distinct = tt; below = tt; enough = omega arith }) in
    (s, same)
