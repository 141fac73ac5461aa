-- ===== src/Decorators/Extracted.antt =====
-- extract_nested_methods_with_decorators of decorators.py. The depth of the recursion is bounded by
-- fuel; `none` means that it ran out.
use camera_ui_rpc.Base.{
  ℕ, zero, suc, String, Option, none, some, List, [], ◌∷◌, ◌++◌, ℕ_eq, String_eq, if◌then◌else◌,
}
use camera_ui_rpc.Base.Dict.{Dict, insert, contains}
use camera_ui_rpc.Utils.Proxies.{dotted}
use camera_ui_rpc.Decorators.{Object, Handler, Exposure, exposes, descends, exposures}

-- what the recursive calls share
pub record Extraction : Type 0 where
  pub handlers : Dict String Handler
  pub visited : List ℕ

abbrev pub new_extraction : Extraction
new_extraction = record { handlers = []; visited = [] }

abbrev pub and_then : Option Extraction → (Extraction → Option Extraction) → Option Extraction
and_then none rest = none
and_then (some s) rest = rest s

abbrev pub expose : String → Handler → Extraction → Extraction
expose path h s = record s { handlers = insert path h s.handlers }

-- the loop over the attributes of an object; `extract_from` is the recursive call
abbrev pub extract_all :
    (List String → ℕ → Extraction → Option Extraction)
    → List String
    → List (String × Exposure)
    → Extraction
    → Option Extraction
extract_all extract_from path [] s = some s
extract_all extract_from path ((name, exposes h) ∷ es) s =
    extract_all extract_from path es (expose (dotted (path ++ name ∷ [])) h s)
extract_all extract_from path ((name, descends self) ∷ es) s =
    and_then (extract_from (path ++ name ∷ []) self s) (λ s'. extract_all extract_from path es s')

module _ (heap : ℕ → Object) where
  unfoldable pub extract : ℕ → List String → ℕ → Extraction → Option Extraction
  unfolding exposures contains insert
  extract zero path self s = none
  extract (suc fuel) path self s =
      let unseen =
        extract_all (extract fuel) path (exposures heap self)
          (record s { visited = self ∷ s.visited }) in
      if contains self s.visited then some s else unseen
