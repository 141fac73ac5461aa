-- ===== src/Decorators/Shown.antt =====
-- What an object lets become of its attributes, in decorators.py: each handler is the value of a public
-- name, or a getter of it, and of decorated objects only what is marked.
use mathlib.Core.List.{Memᴰ}
use camera_ui_rpc.Base.{ℕ, ◌≡◌, ◌⊎◌, true, false, String, some, List, ℕ_eq, String_eq}
use camera_ui_rpc.Decorators.{
  Attribute, Instance, Body, plain_dict, instance_of, none_value, Object, calls, returns, reads,
  Exposure, exposes, descends,
}
use camera_ui_rpc.Decorators.Marked.{MarksMethod, MarksNested, IsProperty}

-- what has attributes of its own
abbrev pub HasAttributes : Body → Type 0
HasAttributes (plain_dict entries) = Unit
HasAttributes (instance_of i) = i.is_value ≡ false
HasAttributes none_value = ⊥

-- no such object
abbrev pub IsPlain : Body → Type 0
IsPlain (plain_dict entries) = ⊥
IsPlain (instance_of i) = i.is_value ≡ true
IsPlain none_value = Unit

abbrev pub IsCallable : Object → Type 0
IsCallable o = o.is_callable ≡ true

-- a function or a method, and no class
abbrev pub IsFunction : Object → Type 0
IsFunction o = (o.is_callable ≡ true) × (o.is_class ≡ false)

-- the attribute of an instance has this value
abbrev pub Holds : Instance → Attribute → ℕ → Type 0
Holds i a value = Memᴰ a i.attributes × (a.value ≡ some value)

-- the object that is entered for a nested value
abbrev pub IsReached : (ℕ → Object) → Instance → String → ℕ → ℕ → Type 0
IsReached heap i name value other =
    (other ≡ value)
    ⊎ (IsProperty i name × IsCallable (heap value) × ((heap value).result ≡ some other))

-- what a name of an object may become, by the object's body
pub data Shown (heap : ℕ → Object) (self : ℕ) : Body → String → Exposure → Type 0 where
  entry_called :
      (entries : List (String × ℕ)) (key : String) (value : ℕ)
      → Memᴰ (key, value) entries
      → IsCallable (heap value)
      → Shown heap self (plain_dict entries) key (exposes (calls value))
  entry_returned :
      (entries : List (String × ℕ)) (key : String) (value : ℕ)
      → Memᴰ (key, value) entries
      → (heap value).is_callable ≡ false
      → IsPlain (heap value).body
      → Shown heap self (plain_dict entries) key (exposes (returns value))
  entry_entered :
      (entries : List (String × ℕ)) (key : String) (value : ℕ)
      → Memᴰ (key, value) entries
      → (heap value).is_callable ≡ false
      → HasAttributes (heap value).body
      → Shown heap self (plain_dict entries) key (descends value)
  method_called :
      (i : Instance) (a : Attribute) (value : ℕ)
      → Holds i a value
      → IsFunction (heap value)
      → (i.expose_all ≡ true) ⊎ MarksMethod i a.name
      → Shown heap self (instance_of i) a.name (exposes (calls value))
  property_read :
      (i : Instance) (a : Attribute) (value : ℕ)
      → Holds i a value
      → (heap value).is_callable ≡ false
      → MarksMethod i a.name
      → Shown heap self (instance_of i) a.name (exposes (reads self a.name))
  -- the value, or what it returns when it is called, where it is callable and of a property
  nested_entered :
      (i : Instance) (a : Attribute) (value other : ℕ)
      → Holds i a value
      → MarksNested i a.name
      → IsReached heap i a.name value other
      → Shown heap self (instance_of i) a.name (descends other)
