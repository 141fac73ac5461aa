-- ===== src/Decorators/Allowed.antt =====
-- The attributes that the extraction of decorators.py exposes or enters are all shown: Decorators/Shown.
use mathlib.Core.List.{Memᴰ}
use camera_ui_rpc.Base.{
  ℕ, ◌≡◌, inl, inr, refl, Bool, true, false, ◌||◌, ◌&&◌, not, String, Option, none, some, List, [],
  ◌∷◌, ℕ_eq, ◌==◌, String_eq, if◌then◌else◌,
}
use camera_ui_rpc.Decorators.{
  Attribute, Instance, Body, plain_dict, instance_of, none_value, Object, calls, returns, reads,
  Exposure, exposes, descends, is_private, add_exposure, is_method, is_nested, exposure_of_value,
  dict_exposures, nested_object, or_self, is_property_of, find_attribute, descends_unless_none,
  instance_exposure, attribute_exposure, instance_exposures, exposures_in,
}
use camera_ui_rpc.Decorators.Marked.{
  IsPublic, MarksNested, found-IsProperty, is_private-IsPublic, is_method-MarksMethod,
  is_nested-MarksNested,
}
use camera_ui_rpc.Decorators.Shown.{
  Holds, IsReached, Shown, entry_called, entry_returned, entry_entered, method_called,
  property_read, nested_entered,
}

module _ (heap : ℕ → Object) (self : ℕ) where
  abbrev pub Allowed : Body → String → Exposure → Type 0
  Allowed body name e = IsPublic name × Shown heap self body name e

  abbrev pub AllAllowed : Body → List (String × Exposure) → Type 0
  AllAllowed body [] = Unit
  AllAllowed body ((name, e) ∷ es) = Allowed body name e × AllAllowed body es

  abbrev SomeAllowed : Body → String → Option Exposure → Type 0
  SomeAllowed body name none = Unit
  SomeAllowed body name (some e) = Allowed body name e

  value-Shown :
      (entries : List (String × ℕ)) (key : String) (value : ℕ) (body : Body)
      → (heap value).body ≡ body
      → Memᴰ (key, value) entries
      → (heap value).is_callable ≡ false
      → Shown heap self (plain_dict entries) key (exposure_of_value heap body value)
  value-Shown entries key value (plain_dict inner) same there c =
      entry_entered entries key value there c (rw same tt)
  value-Shown entries key value none_value same there c =
      entry_returned entries key value there c (rw same tt)
  value-Shown entries key value (instance_of i) same there c = by_value i.is_value refl
    where
      by_value :
          (q : Bool)
          → i.is_value ≡ q
          → Shown heap self
              (plain_dict entries)
              key
              (if q then exposes (returns value) else descends value)
      by_value true e = entry_returned entries key value there c (rw same e)
      by_value false e = entry_entered entries key value there c (rw same e)

  dict-AllAllowed :
      (all entries : List (String × ℕ))
      → ((e : String × ℕ) → Memᴰ e entries → Memᴰ e all)
      → AllAllowed (plain_dict all) (dict_exposures heap entries)
  dict-AllAllowed all [] among = tt
  dict-AllAllowed all ((key, value) ∷ entries) among =
      by_key (is_private key) refl (heap value).is_callable refl
        (dict-AllAllowed all entries (λ e there. among e (Memᴰ.tail there)))
    where
      there : Memᴰ (key, value) all
      there = among (key, value) (Memᴰ.head refl)

      by_key :
          (q : Bool)
          → is_private key ≡ q
          → (callable : Bool) → (heap value).is_callable ≡ callable
          → AllAllowed (plain_dict all) (dict_exposures heap entries)
          → AllAllowed (plain_dict all) (
              if q
              then dict_exposures heap entries
              else if callable
              then (key, exposes (calls value)) ∷ dict_exposures heap entries
              else (key, exposure_of_value heap (heap value).body value)
                ∷ dict_exposures heap entries)
      by_key true same callable c later = later
      by_key false same true c later =
          ((is_private-IsPublic key same, entry_called all key value there c), later)
      by_key false same false c later = (
        (is_private-IsPublic key same, value-Shown all key value (heap value).body refl there c),
        later,
      )

  module _ (i : Instance) (a : Attribute) (value : ℕ) (there : Holds i a value)
      (open_name : IsPublic a.name) where
    nested_object_lem :
        let other = nested_object heap i a.name value in IsReached heap i a.name value other
    nested_object_lem =
        by_call (heap value).is_callable refl
          (is_property_of (find_attribute a.name i.class_attributes)) refl (heap value).result refl
      where
        by_call :
            (q : Bool)
            → (heap value).is_callable ≡ q
            → (r : Bool) → is_property_of (find_attribute a.name i.class_attributes) ≡ r
            → (o : Option ℕ) → (heap value).result ≡ o
            → let other = if q && r then or_self value o else value in
              IsReached heap i a.name value other
        by_call true c true p none e = inl refl
        by_call true c true p (some other) e = inr (found-IsProperty i a.name p, c, e)
        by_call true c false p o e = inl refl
        by_call false c r p o e = inl refl

    descends-Allowed :
        (nested : ℕ) (body : Body)
        → MarksNested i a.name
        → IsReached heap i a.name value nested
        → SomeAllowed (instance_of i) a.name (descends_unless_none heap body nested)
    descends-Allowed nested none_value marked from = tt
    descends-Allowed nested (plain_dict entries) marked from =
        (open_name, nested_entered i a value nested there marked from)
    descends-Allowed nested (instance_of j) marked from =
        (open_name, nested_entered i a value nested there marked from)

    instance-Allowed :
        SomeAllowed (instance_of i) a.name (instance_exposure heap self i a.name value)
    instance-Allowed =
        by_marks (heap value).is_callable refl (heap value).is_class refl i.expose_all refl
          (is_method i a.name) refl (is_nested i a.name) refl
      where
        nested : ℕ
        nested = nested_object heap i a.name value

        by_marks :
            (callable : Bool)
            → (heap value).is_callable ≡ callable
            → (class : Bool) → (heap value).is_class ≡ class
            → (every : Bool) → i.expose_all ≡ every
            → (method : Bool) → is_method i a.name ≡ method
            → (descended : Bool) → is_nested i a.name ≡ descended
            → SomeAllowed (instance_of i) a.name (
                if callable && not class
                then if every || method then some (exposes (calls value)) else none
                else if method && not callable
                then some (exposes (reads self a.name))
                else if descended
                then descends_unless_none heap (heap nested).body nested
                else none)
        by_marks true c false k true e m x d y =
            (open_name, method_called i a value there (c, k) (inl e))
        by_marks true c false k false e true x d y = (
          open_name,
          method_called i a value there (c, k) (inr (is_method-MarksMethod i a.name x)),
        )
        by_marks true c false k false e false x d y = tt
        by_marks true c true k e f true x true y =
            descends-Allowed nested (heap nested).body (is_nested-MarksNested i a.name y)
              nested_object_lem
        by_marks true c true k e f false x true y =
            descends-Allowed nested (heap nested).body (is_nested-MarksNested i a.name y)
              nested_object_lem
        by_marks true c true k e f true x false y = tt
        by_marks true c true k e f false x false y = tt
        by_marks false c k l e f true x d y =
            (open_name, property_read i a value there c (is_method-MarksMethod i a.name x))
        by_marks false c k l e f false x true y =
            descends-Allowed nested (heap nested).body (is_nested-MarksNested i a.name y)
              nested_object_lem
        by_marks false c k l e f false x false y = tt

  attribute-Allowed :
      (i : Instance) (a : Attribute) (value : Option ℕ)
      → Memᴰ a i.attributes
      → a.value ≡ value
      → SomeAllowed (instance_of i) a.name (attribute_exposure heap self i a.name value)
  attribute-Allowed i a none there same = tt
  attribute-Allowed i a (some value) there same =
      by_name (is_private a.name) refl (a.name == "constructor")
    where
      by_name :
          (q : Bool)
          → is_private a.name ≡ q
          → (r : Bool)
          → SomeAllowed
              (instance_of i)
              a.name
              (if q || r then none else instance_exposure heap self i a.name value)
      by_name true e r = tt
      by_name false e true = tt
      by_name false e false =
          instance-Allowed i a value (there, same) (is_private-IsPublic a.name e)

  add-AllAllowed :
      (body : Body) (name : String) (e : Option Exposure) (es : List (String × Exposure))
      → SomeAllowed body name e
      → AllAllowed body es
      → AllAllowed body (add_exposure name e es)
  add-AllAllowed body name none es a later = later
  add-AllAllowed body name (some e) es a later = (a, later)

  instances-AllAllowed :
      (i : Instance) (attributes : List Attribute)
      → ((a : Attribute) → Memᴰ a attributes → Memᴰ a i.attributes)
      → AllAllowed (instance_of i) (instance_exposures heap self i attributes)
  instances-AllAllowed i [] among = tt
  instances-AllAllowed i (a ∷ attributes) among =
      add-AllAllowed (instance_of i) a.name (attribute_exposure heap self i a.name a.value) _
        (attribute-Allowed i a a.value (among a (Memᴰ.head refl)) refl)
        (instances-AllAllowed i attributes (λ b there. among b (Memᴰ.tail there)))

  pub body-AllAllowed : (body : Body) → AllAllowed body (exposures_in heap self body)
  body-AllAllowed (plain_dict entries) = dict-AllAllowed entries entries (λ e there. there)
  body-AllAllowed (instance_of i) = instances-AllAllowed i i.attributes (λ a there. there)
  body-AllAllowed none_value = tt
