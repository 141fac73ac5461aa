-- ===== src/Decorators/Exposed.antt =====
-- What the extraction of decorators.py exposes: nothing private, and of decorated objects only what
-- is marked.
use mathlib.Core.List.{append_assoc}
use camera_ui_rpc.Base.{
  ℕ, zero, suc, ◌≡◌, refl, sym, ◌∙◌, Bool, true, false, String, Option, none, some, List, [], ◌∷◌,
  ◌++◌, ℕ_eq, ◌==◌, String_eq, eq_of_same, if◌then◌else◌,
}
use camera_ui_rpc.Base.Dict.{lookup, contains, lookup-insert}
use camera_ui_rpc.Utils.Proxies.{dotted}
use camera_ui_rpc.Decorators.{Object, Handler, Exposure, exposes, descends, exposures_in, exposures}
use camera_ui_rpc.Decorators.Extracted.{
  Extraction, new_extraction, and_then, expose, extract_all, extract,
}
use camera_ui_rpc.Decorators.Allowed.{Allowed, AllAllowed, body-AllAllowed}

-- what may be exposed of an object under a path: each object on the way allows the next attribute
pub data Exposed (heap : ℕ → Object) : ℕ → List String → Handler → Type 0 where
  leaf :
      (self : ℕ) (name : String) (h : Handler)
      → Allowed heap self (heap self).body name (exposes h)
      → Exposed heap self (name ∷ []) h
  step :
      (self other : ℕ) (name : String) (path : List String) (h : Handler)
      → Allowed heap self (heap self).body name (descends other)
      → Exposed heap other path h
      → Exposed heap self (name ∷ path) h

module _ (heap : ℕ → Object) (root : ℕ) where
  -- every handler stands under the dotted path of something that may be exposed
  abbrev pub AllExposed : Extraction → Type 0
  AllExposed s =
      (key : String) (h : Handler)
      → lookup key s.handlers ≡ some h
      → (path : List String) × (key ≡ dotted path) × Exposed heap root path h

  abbrev IfReturned : Option Extraction → Type 0
  IfReturned none = Unit
  IfReturned (some s) = AllExposed s

  -- what may be exposed of `self` may be exposed of the root, behind `path`
  abbrev Behind : List String → ℕ → Type 0
  Behind path self =
      (q : List String) (h : Handler) → Exposed heap self q h → Exposed heap root (path ++ q) h

  expose-AllExposed :
      (path : List String) (h : Handler) (s : Extraction)
      → Exposed heap root path h
      → AllExposed s
      → AllExposed (expose (dotted path) h s)
  expose-AllExposed path h s may all key h' found =
      by_key (dotted path == key) refl (sym (lookup-insert (dotted path) key h s.handlers) ∙ found)
    where
      by_key :
          (q : Bool)
          → (dotted path == key) ≡ q
          → (if q then some h else lookup key s.handlers) ≡ some h'
          → (p : List String) × (key ≡ dotted p) × Exposed heap root p h'
      by_key true same e =
          let same_handler : h ≡ h' = cc e in
          (path, sym (eq_of_same (dotted path) key same), rw (← same_handler) may)
      by_key false other e = all key h' e

  returned_then :
      (r : Option Extraction) (rest : Extraction → Option Extraction)
      → IfReturned r
      → ((s : Extraction) → AllExposed s → IfReturned (rest s))
      → IfReturned (and_then r rest)
  returned_then none rest all next = tt
  returned_then (some s) rest all next = next s all

  all-AllExposed :
      (extract_from : List String → ℕ → Extraction → Option Extraction)
      → ((path : List String) (self : ℕ) (s : Extraction)
          → Behind path self
          → AllExposed s
          → IfReturned (extract_from path self s))
      → (path : List String) (self : ℕ) → Behind path self
      → (es : List (String × Exposure)) → AllAllowed heap self (heap self).body es
      → (s : Extraction) → AllExposed s
      → IfReturned (extract_all extract_from path es s)
  all-AllExposed extract_from exposed path self behind [] allowed s all = all
  all-AllExposed extract_from exposed path self behind ((name, exposes h) ∷ es) allowed s all =
      all-AllExposed extract_from exposed path self behind es allowed.1 _ (
        expose-AllExposed (path ++ name ∷ []) h s
          (behind (name ∷ []) h (leaf self name h allowed.0)) all)
  all-AllExposed extract_from exposed path self behind ((name, descends other) ∷ es) allowed s all =
      returned_then (extract_from (path ++ name ∷ []) other s)
        (λ s'. extract_all extract_from path es s')
        (exposed (path ++ name ∷ []) other s
          (λ q h may.
            rw (append_assoc path (name ∷ []) q)
              (behind (name ∷ q) h (step self other name q h allowed.0 may)))
          all)
        (λ s' all'. all-AllExposed extract_from exposed path self behind es allowed.1 s' all')

  extract-AllExposed :
      (fuel : ℕ) (path : List String) (self : ℕ) (s : Extraction)
      → Behind path self
      → AllExposed s
      → IfReturned (extract heap fuel path self s)
  unfolding extract exposures
  extract-AllExposed zero path self s behind all = tt
  extract-AllExposed (suc fuel) path self s behind all = by_visited (contains self s.visited) (
      all-AllExposed (extract heap fuel) (extract-AllExposed fuel) path self behind
        (exposures_in heap self (heap self).body) (body-AllAllowed heap self (heap self).body)
        (record s { visited = self ∷ s.visited }) all)
    where
      by_visited :
          (q : Bool)
          → IfReturned (
              extract_all
                (extract heap fuel)
                path
                (exposures_in heap self (heap self).body)
                (record s { visited = self ∷ s.visited }))
          → IfReturned (
              if q
              then some s
              else extract_all
                  (extract heap fuel)
                  path
                  (exposures_in heap self (heap self).body)
                  (record s { visited = self ∷ s.visited }))
      by_visited true later = all
      by_visited false later = later

-- Whatever the objects are, and however deep the extraction goes, each of its handlers stands under
-- a dotted path of names, none of which starts with an underscore. Of a dictionary, a name leads on
-- to its value, and at the end a callable value is the handler, and a getter is it for any other
-- plain value. Of an instance, a name that is marked as nested leads on to the value of the
-- attribute, or to what its call returns if it is callable and of a property; at the end, the value
-- is the handler if it is a function and its name is marked or its class exposes all, and a getter
-- of the attribute is it if the name is marked and the value cannot be called.
pub extraction_exposes :
    (heap : ℕ → Object) (fuel root : ℕ) (s : Extraction)
    → extract heap fuel [] root new_extraction ≡ some s
    → (key : String) (h : Handler) → lookup key s.handlers ≡ some h
    → (path : List String) × (key ≡ dotted path) × Exposed heap root path h
unfolding lookup
extraction_exposes heap fuel root s extracted key h found =
    let all =
      extract-AllExposed heap root fuel [] root new_extraction (λ q h may. may) (λ key h e. cc e) in
    (rw extracted at all) key h found
