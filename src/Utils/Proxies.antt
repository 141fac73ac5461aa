-- ===== src/Utils/Proxies.antt =====
-- create_proxy and rpc_callbacks of utils.py: which call of the client a proxy makes, and the cache
-- of the methods that it has discovered. A callable argument is a number; a class is an ordinary
-- value. Names are ASCII texts.
pub mod Discovery
pub mod Tests
use Prim.Native.String.{◌++◌ as join_texts, ◌∷◌ as cons_char, [] as no_text}
use Prim.Native.Char.{code}
use camera_ui_rpc.Base.{
  ℕ, ◌+◌, Bool, true, false, ◌&&◌, not, String, Option, none, some, List, [], ◌∷◌, ◌++◌, map,
  nat_eq, leb, ◌==◌, String_eq, if◌then◌else◌,
}
use camera_ui_rpc.Base.Dict.{Dict, contains}
use camera_ui_rpc.Codec.Values.{
  Value, list, str, dict, Items, Fields, no_fields, field, is_text_key, field_of,
}
use camera_ui_rpc.Client.Handlers.{text_items}

pub record RpcCallbacks : Type 0 where
  pub methods : Dict String ℕ
  pub oneway : List String

pub data Argument : Type 0 where
  value : Value → Argument
  callable : ℕ → Argument
  callbacks : RpcCallbacks → Argument

abbrev pub keep_callable : String → Argument → Dict String ℕ → Dict String ℕ
keep_callable name (callable f) methods = (name, f) ∷ methods
keep_callable name other methods = methods

abbrev pub callables : List (String × Argument) → Dict String ℕ
callables [] = []
callables ((name, a) ∷ rest) = keep_callable name a (callables rest)

abbrev pub or_all : Option (List String) → Dict String ℕ → List String
or_all none methods = map (λ m. m.0) methods
or_all (some oneway) methods = oneway

-- `rpc_callbacks`, with its keyword `oneway` first
unfoldable pub rpc_callbacks : Option (List String) → List (String × Argument) → RpcCallbacks
rpc_callbacks oneway arguments = record {
  methods = callables arguments;
  oneway = or_all oneway (callables arguments);
}

-- the calls of the client
pub data ClientCall : Type 0 where
  call_pull_iterator_with_callback :
      String → Dict String ℕ → List String → List Argument → ClientCall
  call_with_callback : String → List Argument → ℕ → ClientCall
  call_stream call_pull_iterator : String → List Argument → ClientCall
  -- with `discover`
  call : String → List Argument → Bool → ClientCall

-- the first bundle among the arguments, and the other arguments
abbrev pub with_argument {ℓ} :
    {A : Type ℓ} → Argument → Option (A × List Argument) → Option (A × List Argument)
with_argument a none = none
with_argument a (some (found, others)) = some (found, a ∷ others)

abbrev pub first_bundle : List Argument → Option (RpcCallbacks × List Argument)
first_bundle [] = none
first_bundle (callbacks c ∷ rest) = some (c, rest)
first_bundle (value v ∷ rest) = with_argument (value v) (first_bundle rest)
first_bundle (callable f ∷ rest) = with_argument (callable f) (first_bundle rest)

abbrev pub first_callable : List Argument → Option (ℕ × List Argument)
first_callable [] = none
first_callable (callable f ∷ rest) = some (f, rest)
first_callable (value v ∷ rest) = with_argument (value v) (first_callable rest)
first_callable (callbacks c ∷ rest) = with_argument (callbacks c) (first_callable rest)

-- `text.lower()`, as the codes of its characters
unfoldable pub lower : String → List ℕ
lower no_text = []
lower (cons_char c s) =
    let rest = lower s in
    (if leb 65 (code c) && leb (code c) 90 then code c + 32 else code c) ∷ rest

abbrev pub starts_with : List ℕ → List ℕ → Bool
starts_with [] text = true
starts_with (c ∷ cs) [] = false
starts_with (c ∷ cs) (d ∷ text) = let rest = starts_with cs text in nat_eq c d && rest

-- `part in text`
unfoldable pub is_in : List ℕ → List ℕ → Bool
is_in part [] = starts_with part []
is_in part (c ∷ text) =
    let later = is_in part text in if starts_with part (c ∷ text) then true else later

abbrev pub call_by_name : Bool → String → String → List Argument → ClientCall
call_by_name discover subject name args =
    if is_in (lower "generate") (lower name)
    then call_stream subject args
    else if is_in (lower "pull") (lower name)
    then call_pull_iterator subject args
    else call subject args discover

abbrev pub call_by_callable :
    Bool → String → String → List Argument → Option (ℕ × List Argument) → ClientCall
call_by_callable discover subject name args none = call_by_name discover subject name args
call_by_callable discover subject name args (some (f, others)) = call_with_callback subject others f

abbrev pub call_by_bundle :
    Bool → String → String → List Argument → Option (RpcCallbacks × List Argument) → ClientCall
call_by_bundle discover subject name args none =
    call_by_callable discover subject name args (first_callable args)
call_by_bundle discover subject name args (some (c, others)) =
    call_pull_iterator_with_callback subject c.methods c.oneway others

-- `".".join(path)`
abbrev pub dotted : List String → String
dotted [] = ""
dotted (name ∷ []) = name
dotted (name ∷ names) = join_texts name (join_texts "." (dotted names))

abbrev pub is_empty_cache : Option (List String) → Bool
is_empty_cache none = true
is_empty_cache (some names) = false

-- `CallableProxy.__call__`, for the attribute `name` of the proxy at `path`
unfoldable pub proxy_call :
    String → Option (List String) → List String → String → List Argument → ClientCall
unfolding lower is_in
proxy_call namespace cache path name args =
    call_by_bundle (is_empty_cache cache)
      (join_texts "rpc." (join_texts namespace (join_texts "." (dotted (path ++ name ∷ []))))) name
      args (first_bundle args)

-- `RPCProxy.__getattr__`: the full path of the callable that it returns, or `None`
unfoldable pub proxy_attribute : Option (List String) → List String → String → Option (List String)
unfolding contains
proxy_attribute (some names) [] name = if contains name names then some (name ∷ []) else none
proxy_attribute cache path name = some (path ++ name ∷ [])

abbrev pub update_cache : Option (List String) → List String → Option (List String)
update_cache none names = some names
update_cache (some known) names = some known

-- `r.pop(name)`
unfoldable pub pop_field : String → Fields → Fields
pop_field name no_fields = no_fields
pop_field name (field key v fs) =
    let later = pop_field name fs in if is_text_key name key then fs else field key v later

abbrev pub names_in : Value → List String
names_in (list names) = text_items names
names_in other = []

abbrev pub strip_found : Option (List String) → Fields → Option Value → Option (List String) × Value
strip_found cache fs none = (cache, dict fs)
strip_found cache fs (some names) =
    (update_cache cache (names_in names), dict (pop_field "__methods" fs))

-- `strip_methods`, with the cache before and behind it
unfoldable pub strip_methods : Option (List String) → Value → Option (List String) × Value
unfolding field_of pop_field
strip_methods cache (dict fs) = strip_found cache fs (field_of "__methods" fs)
strip_methods cache other = (cache, other)
