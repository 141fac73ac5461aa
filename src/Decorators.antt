-- ===== src/Decorators.antt =====
-- decorators.py: the methods that a handler object exposes. An object is a number, and `heap` says
-- what it is: so two attributes may hold one object, and objects may hold one another in a circle.
-- Keys of dictionaries are texts, and what an attribute reads as does not change. Attributes are
-- those that dir() lists, in its order; marks are those that the decorators have set on the class.
pub mod Extracted
pub mod Terminates
pub mod Exposed
pub mod Tests
pub mod Marked
pub mod Shown
pub mod Allowed
use Prim.Native.String.{◌∷◌ as cons_char, [] as no_text}
use Prim.Native.Char.{code}
use camera_ui_rpc.Base.{
  ℕ, zero, suc, Bool, true, false, ◌&&◌, ◌||◌, not, String, Option, none, some, List, [], ◌∷◌, ◌++◌,
  map, nat_eq, ◌==◌, String_eq, if◌then◌else◌,
}
use camera_ui_rpc.Base.Dict.{Dict, insert, contains}
use camera_ui_rpc.Utils.Proxies.{dotted}

-- an attribute of a class, with its marks; a property is marked by its getter
pub record ClassAttribute : Type 0 where
  pub name : String
  pub rpc_exposed : Bool
  pub rpc_nested : Bool
  pub is_property : Bool
  pub getter_nested : Bool

-- `value` is missing where reading it raises; `is_static` is whether a class of the object's has a
-- static or class method of this name
pub record Attribute : Type 0 where
  pub name : String
  pub value : Option ℕ
  pub is_static : Bool

-- `is_value` is whether it is a text, a number, a list, a tuple or a set, or has no `__dict__`
pub record Instance : Type 0 where
  pub is_value : Bool
  pub expose_all : Bool
  pub class_attributes : List ClassAttribute
  -- `__rpc_methods__` of the class, and the names in the object's `__dict__`
  pub rpc_methods : List String
  pub own_names : List String
  pub rpc_nested_attrs : List String
  pub attributes : List Attribute

-- a `dict` itself has no marks, so it is always in the plain dict mode
pub data Body : Type 0 where
  plain_dict : List (String × ℕ) → Body
  instance_of : Instance → Body
  none_value : Body

pub record Object : Type 0 where
  pub is_callable : Bool
  pub is_class : Bool
  -- what a call without arguments returns, if it does not raise
  pub result : Option ℕ
  pub body : Body

-- a handler: the callable, or a getter of a value or of an attribute of an object
pub data Handler : Type 0 where
  calls returns : ℕ → Handler
  reads : ℕ → String → Handler

-- what becomes of an attribute
pub data Exposure : Type 0 where
  exposes : Handler → Exposure
  descends : ℕ → Exposure

-- `name.startswith("_")`
abbrev pub is_private : String → Bool
is_private no_text = false
is_private (cons_char c s) = nat_eq (code c) 95

abbrev pub add_exposure :
    String → Option Exposure → List (String × Exposure) → List (String × Exposure)
add_exposure name none later = later
add_exposure name (some e) later = (name, e) ∷ later

-- `rpc_methods`
abbrev pub marked_methods : List ClassAttribute → List String
marked_methods [] = []
marked_methods (a ∷ attributes) =
    let later = marked_methods attributes in
    if not (is_private a.name) && a.rpc_exposed then a.name ∷ later else later

abbrev pub is_method : Instance → String → Bool
is_method i name = contains name (marked_methods i.class_attributes) || contains name i.rpc_methods

-- `rpc_nested`
abbrev pub marked_nested : List ClassAttribute → List String
marked_nested [] = []
marked_nested (a ∷ attributes) =
    let later = marked_nested attributes in
    if not (is_private a.name) && (a.rpc_nested || (a.is_property && a.getter_nested))
    then a.name ∷ later
    else later

abbrev pub find_attribute : String → List ClassAttribute → Option ClassAttribute
find_attribute name [] = none
find_attribute name (a ∷ attributes) =
    let later = find_attribute name attributes in if a.name == name then some a else later

abbrev pub is_nested_attribute : Option ClassAttribute → Bool
is_nested_attribute none = false
is_nested_attribute (some a) = a.rpc_nested

abbrev pub own_nested : List ClassAttribute → List String → List String
own_nested attributes [] = []
own_nested attributes (name ∷ names) =
    let later = own_nested attributes names in
    if not (is_private name) && is_nested_attribute (find_attribute name attributes)
    then name ∷ later
    else later

abbrev pub is_nested : Instance → String → Bool
is_nested i name =
    contains name (marked_nested i.class_attributes)
    || (contains name (own_nested i.class_attributes i.own_names)
        || contains name i.rpc_nested_attrs)

abbrev pub is_property_of : Option ClassAttribute → Bool
is_property_of none = false
is_property_of (some a) = a.is_property

abbrev pub or_self : ℕ → Option ℕ → ℕ
or_self value none = value
or_self value (some result) = result

module _ (heap : ℕ → Object) where
  abbrev pub exposure_of_value : Body → ℕ → Exposure
  exposure_of_value (plain_dict entries) value = descends value
  exposure_of_value (instance_of i) value =
      if i.is_value then exposes (returns value) else descends value
  exposure_of_value none_value value = exposes (returns value)

  -- the plain dict mode
  abbrev pub dict_exposures : List (String × ℕ) → List (String × Exposure)
  dict_exposures [] = []
  dict_exposures ((key, value) ∷ entries) =
      let later = dict_exposures entries in
      if is_private key
      then later
      else if (heap value).is_callable
      then (key, exposes (calls value)) ∷ later
      else (key, exposure_of_value (heap value).body value) ∷ later

  -- a property whose value is a class is called
  abbrev pub nested_object : Instance → String → ℕ → ℕ
  nested_object i name value =
      if (heap value).is_callable && is_property_of (find_attribute name i.class_attributes)
      then or_self value (heap value).result
      else value

  abbrev pub descends_unless_none : Body → ℕ → Option Exposure
  descends_unless_none none_value value = none
  descends_unless_none body value = some (descends value)

  abbrev pub instance_exposure : ℕ → Instance → String → ℕ → Option Exposure
  instance_exposure self i name value =
      if (heap value).is_callable && not (heap value).is_class
      then if i.expose_all || is_method i name then some (exposes (calls value)) else none
      else if is_method i name && not (heap value).is_callable
      then some (exposes (reads self name))
      else if is_nested i name
      then (let nested = nested_object i name value in
          descends_unless_none (heap nested).body nested)
      else none

  abbrev pub attribute_exposure : ℕ → Instance → String → Option ℕ → Option Exposure
  attribute_exposure self i name none = none
  attribute_exposure self i name (some value) =
      if is_private name || name == "constructor" then none else instance_exposure self i name value

  -- the decorator mode
  abbrev pub instance_exposures : ℕ → Instance → List Attribute → List (String × Exposure)
  instance_exposures self i [] = []
  instance_exposures self i (a ∷ attributes) =
      add_exposure a.name (attribute_exposure self i a.name a.value)
        (instance_exposures self i attributes)

  abbrev pub exposures_in : ℕ → Body → List (String × Exposure)
  exposures_in self (plain_dict entries) = dict_exposures entries
  exposures_in self (instance_of i) = instance_exposures self i i.attributes
  exposures_in self none_value = []

  unfoldable pub exposures : ℕ → List (String × Exposure)
  exposures self = exposures_in self (heap self).body

  -- `extract_nested_methods_without_decorators`: what it exposes of an object
  abbrev pub undecorated_dict : List (String × ℕ) → Dict String Handler → Dict String Handler
  undecorated_dict [] handlers = handlers
  undecorated_dict ((key, value) ∷ entries) handlers = undecorated_dict entries (
      if not (is_private key) && ((heap value).is_callable && not (heap value).is_class)
      then insert key (calls value) handlers
      else handlers)

  abbrev pub undecorated_value : String → Option ℕ → Dict String Handler → Dict String Handler
  undecorated_value name none handlers = handlers
  undecorated_value name (some value) handlers =
      if (heap value).is_callable && not (heap value).is_class
      then insert name (calls value) handlers
      else handlers

  abbrev pub undecorated_attributes : List Attribute → Dict String Handler → Dict String Handler
  undecorated_attributes [] handlers = handlers
  undecorated_attributes (a ∷ attributes) handlers = undecorated_attributes attributes (
      if is_private a.name || a.is_static
      then handlers
      else undecorated_value a.name a.value handlers)

  abbrev pub undecorated_body : Body → Dict String Handler
  undecorated_body (plain_dict entries) = undecorated_dict entries []
  undecorated_body (instance_of i) = undecorated_attributes i.attributes []
  undecorated_body none_value = []

  unfoldable pub extract_without_decorators : ℕ → Dict String Handler
  unfolding insert contains
  extract_without_decorators self = undecorated_body (heap self).body
