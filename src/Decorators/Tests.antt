-- ===== src/Decorators/Tests.antt =====
-- The extraction of methods at concrete objects.
use camera_ui_rpc.Base.{
  ℕ, zero, suc, ◌<◌, ◌≡◌, refl, Bool, true, false, String, String_eq, ℕ_eq, none, some, List, [],
  ◌∷◌, arith,
}
use camera_ui_rpc.Base.Dict.{lookup, insert, contains}
use camera_ui_rpc.Utils.Proxies.{dotted}
use camera_ui_rpc.Decorators.{
  ClassAttribute, Attribute, instance_of, Object, calls, exposures, extract_without_decorators,
}
use camera_ui_rpc.Decorators.Extracted.{Extraction, new_extraction, extract}
use camera_ui_rpc.Decorators.Terminates.{DescendsBelow, extraction_returns}
use camera_ui_rpc.Decorators.Exposed.{Exposed, extraction_exposes}

abbrev method : String → ClassAttribute
method name = record {
  name = name;
  rpc_exposed = true;
  rpc_nested = false;
  is_property = false;
  getter_nested = false;
}

abbrev holds : String → ℕ → Attribute
holds name value = record { name = name; value = some value; is_static = false }

abbrev object : Bool → Bool → List ClassAttribute → List String → List Attribute → Object
object callable value marks nested attributes = record {
  is_callable = callable;
  is_class = false;
  result = none;
  body = instance_of (record {
    is_value = value;
    expose_all = false;
    class_attributes = marks;
    rpc_methods = [];
    own_names = [];
    rpc_nested_attrs = nested;
    attributes = attributes;
  });
}

abbrev decorated : List ClassAttribute → List String → List Attribute → Object
decorated = object false false

-- objects 0 and 1, decorated, which hold each other, and a function 2; the first holds the second
-- under two names
abbrev circle : ℕ → Object
circle zero =
    decorated (method "run" ∷ []) ("left" ∷ "right" ∷ [])
      (holds "_run" 2 ∷ holds "left" 1 ∷ holds "other" 2 ∷ holds "right" 1 ∷ holds "run" 2 ∷ [])
circle (suc zero) =
    decorated (method "stop" ∷ []) ("parent" ∷ []) (holds "parent" 0 ∷ holds "stop" 2 ∷ [])
circle (suc (suc n)) = object true false [] [] []

abbrev extracted : Extraction
extracted = record {
  handlers = ("left.stop", calls 2) ∷ ("run", calls 2) ∷ [];
  visited = 1 ∷ 0 ∷ [];
}

-- The shared object is exposed under its first name only.
shared_exposed_once : extract circle 4 [] 0 new_extraction ≡ some extracted
unfolding extract exposures contains insert
shared_exposed_once = refl

undecorated_is_flat : extract_without_decorators circle 1 ≡ ("stop", calls 2) ∷ []
unfolding extract_without_decorators insert
undecorated_is_flat = refl

circle_closed : (other : ℕ) → other < 3 → DescendsBelow 3 (exposures circle other)
unfolding exposures contains
circle_closed zero lt = (omega arith, (omega arith, tt))
circle_closed (suc zero) lt = (omega arith, tt)
circle_closed (suc (suc n)) lt = tt

extraction_returns_example : (s : Extraction) × (extract circle 4 [] 0 new_extraction ≡ some s)
extraction_returns_example = extraction_returns circle 3 0 circle_closed (omega arith)

extraction_exposes_example :
    (path : List String) × (◌≡◌ {A = String} "left.stop" (dotted path))
    × Exposed circle 0 path (calls 2)
unfolding extract exposures contains insert lookup
extraction_exposes_example = extraction_exposes circle 4 0 extracted refl "left.stop" (calls 2) refl
