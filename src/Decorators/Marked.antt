-- ===== src/Decorators/Marked.antt =====
-- What the marks of a class say of a name, in decorators.py: the reference for `rpc_methods` and
-- `rpc_nested`.
use Prim.Native.String.{◌∷◌ as cons_char}
use Prim.Native.Char.{Char, code}
use mathlib.Core.List.{Memᴰ}
use camera_ui_rpc.Base.{
  ◌≡◌, ◌≢◌, ◌⊎◌, inl, inr, refl, sym, ap, ◌∙◌, Bool, true, false, ◌||◌, ◌&&◌, not, String, List, [],
  ◌∷◌, ◌==◌, String_eq, eq_of_same, arith, if◌then◌else◌, Bool-cases,
}
use camera_ui_rpc.Base.Dict.{contains}
use camera_ui_rpc.Decorators.{
  ClassAttribute, Instance, is_private, marked_methods, is_method, marked_nested, find_attribute,
  is_nested_attribute, is_property_of, own_nested, is_nested,
}

-- The name does not start with an underscore.
abbrev pub IsPublic : String → Type 0
IsPublic name = (c : Char) (rest : String) → name ≡ cons_char c rest → code c ≢ 95

-- The class has this attribute as a method that RPCMethod has marked, or it is one of RPCProperty's.
abbrev pub MarksMethod : Instance → String → Type 0
MarksMethod i name =
    ((a : ClassAttribute) × Memᴰ a i.class_attributes × (a.name ≡ name) × (a.rpc_exposed ≡ true))
    ⊎ Memᴰ name i.rpc_methods

-- RPCNested has marked the attribute or the getter of the property, or the object itself names it.
abbrev pub MarksNested : Instance → String → Type 0
MarksNested i name =
    ((a : ClassAttribute) × Memᴰ a i.class_attributes
      × (a.name ≡ name)
      × ((a.rpc_nested ≡ true) ⊎ ((a.is_property ≡ true) × (a.getter_nested ≡ true))))
    ⊎ Memᴰ name i.rpc_nested_attrs

-- The class has a property of this name.
abbrev pub IsProperty : Instance → String → Type 0
IsProperty i name =
    (a : ClassAttribute) × Memᴰ a i.class_attributes × (a.name ≡ name) × (a.is_property ≡ true)

pub is_private-IsPublic : (name : String) → is_private name ≡ false → IsPublic name
is_private-IsPublic name open_name c rest same e =
    let private_one : is_private (cons_char c rest) ≡ true = ground (arith, e) in
    cc (ap is_private same, open_name, private_one)

pub Memᴰ-contains :
    (name : String) (names : List String) → contains name names ≡ true → Memᴰ name names
unfolding contains
Memᴰ-contains name [] h = cc h
Memᴰ-contains name (k ∷ names) h = elim (Bool-cases (k == name)) [
  | inl here ↦ Memᴰ.head (sym (eq_of_same k name here))
  | inr other ↦ Memᴰ.tail (Memᴰ-contains name names (rw other at h))
]

contains-skip :
    (k name : String) (names : List String)
    → (k == name) ≡ false
    → contains name (k ∷ names) ≡ true
    → contains name names ≡ true
unfolding contains
contains-skip k name names other h = rw other at h

abbrev MarkedAs : (ClassAttribute → Bool) → List ClassAttribute → String → Type 0
MarkedAs mark attributes name =
    (a : ClassAttribute) × Memᴰ a attributes × (a.name ≡ name) × (mark a ≡ true)

later-MarkedAs :
    (mark : ClassAttribute → Bool) (b : ClassAttribute) (attributes : List ClassAttribute)
    (name : String)
    → MarkedAs mark attributes name
    → MarkedAs mark (b ∷ attributes) name
later-MarkedAs mark b attributes name (a, there, named, marked) =
    (a, Memᴰ.tail there, named, marked)

-- a list of names of marked attributes, one attribute more
added-MarkedAs :
    (mark : ClassAttribute → Bool) (b : ClassAttribute) (attributes : List ClassAttribute)
    (name : String) (later : List String)
    → (contains name later ≡ true → MarkedAs mark attributes name)
    → contains name (if not (is_private b.name) && mark b then b.name ∷ later else later) ≡ true
    → MarkedAs mark (b ∷ attributes) name
added-MarkedAs mark b attributes name later rest h =
    by_mark (not (is_private b.name)) (mark b) refl h
  where
    by_mark :
        (q r : Bool)
        → mark b ≡ r
        → contains name (if q && r then b.name ∷ later else later) ≡ true
        → MarkedAs mark (b ∷ attributes) name
    by_mark true true same h = elim (Bool-cases (b.name == name)) [
      | inl here ↦ (b, Memᴰ.head refl, eq_of_same b.name name here, same)
      | inr other ↦
          later-MarkedAs mark b attributes name (rest (contains-skip b.name name later other h))
    ]
    by_mark true false same h = later-MarkedAs mark b attributes name (rest h)
    by_mark false r same h = later-MarkedAs mark b attributes name (rest h)

methods-MarkedAs :
    (attributes : List ClassAttribute) (name : String)
    → contains name (marked_methods attributes) ≡ true
    → MarkedAs (λ a. a.rpc_exposed) attributes name
unfolding contains
methods-MarkedAs [] name h = cc h
methods-MarkedAs (b ∷ attributes) name h =
    added-MarkedAs (λ a. a.rpc_exposed) b attributes name (marked_methods attributes)
      (methods-MarkedAs attributes name) h

nested-MarkedAs :
    (attributes : List ClassAttribute) (name : String)
    → contains name (marked_nested attributes) ≡ true
    → MarkedAs (λ a. a.rpc_nested || (a.is_property && a.getter_nested)) attributes name
unfolding contains
nested-MarkedAs [] name h = cc h
nested-MarkedAs (b ∷ attributes) name h =
    added-MarkedAs (λ a. a.rpc_nested || (a.is_property && a.getter_nested)) b attributes name
      (marked_nested attributes) (nested-MarkedAs attributes name) h

or_cases : (p q : Bool) → (p || q) ≡ true → (p ≡ true) ⊎ (q ≡ true)
or_cases true q h = inl refl
or_cases false q h = inr h

and_both : (p q : Bool) → (p && q) ≡ true → (p ≡ true) × (q ≡ true)
and_both true q h = (refl, h)
and_both false q h = cc h

pub is_method-MarksMethod :
    (i : Instance) (name : String) → is_method i name ≡ true → MarksMethod i name
is_method-MarksMethod i name h =
    elim (or_cases (contains name (marked_methods i.class_attributes)) (contains name i.rpc_methods)
      h) [
        | inl marked ↦ inl (methods-MarkedAs i.class_attributes name marked)
        | inr named ↦ inr (Memᴰ-contains name i.rpc_methods named)
      ]

-- what `getattr` finds on the class, if RPCNested has marked it
found-MarkedAs :
    (attributes : List ClassAttribute) (name : String)
    → is_nested_attribute (find_attribute name attributes) ≡ true
    → MarkedAs (λ a. a.rpc_nested) attributes name
found-MarkedAs [] name h = cc h
found-MarkedAs (a ∷ attributes) name h = elim (Bool-cases (a.name == name)) [
  | inl here ↦ (a, Memᴰ.head refl, eq_of_same a.name name here, rw here at h)
  | inr other ↦
      later-MarkedAs (λ a. a.rpc_nested) a attributes name
        (found-MarkedAs attributes name (rw other at h))
]

property-MarkedAs :
    (attributes : List ClassAttribute) (name : String)
    → is_property_of (find_attribute name attributes) ≡ true
    → MarkedAs (λ a. a.is_property) attributes name
property-MarkedAs [] name h = cc h
property-MarkedAs (a ∷ attributes) name h = elim (Bool-cases (a.name == name)) [
  | inl here ↦ (a, Memᴰ.head refl, eq_of_same a.name name here, rw here at h)
  | inr other ↦
      later-MarkedAs (λ a. a.is_property) a attributes name
        (property-MarkedAs attributes name (rw other at h))
]

pub found-IsProperty :
    (i : Instance) (name : String)
    → is_property_of (find_attribute name i.class_attributes) ≡ true
    → IsProperty i name
found-IsProperty i name h = property-MarkedAs i.class_attributes name h

own-MarkedAs :
    (attributes : List ClassAttribute) (names : List String) (name : String)
    → contains name (own_nested attributes names) ≡ true
    → MarkedAs (λ a. a.rpc_nested) attributes name
unfolding contains
own-MarkedAs attributes [] name h = cc h
own-MarkedAs attributes (k ∷ names) name h =
    by_mark (not (is_private k)) (is_nested_attribute (find_attribute k attributes)) refl
      (own-MarkedAs attributes names name) h
  where
    by_mark :
        (q r : Bool)
        → is_nested_attribute (find_attribute k attributes) ≡ r
        → (contains name (own_nested attributes names) ≡ true
            → MarkedAs (λ a. a.rpc_nested) attributes name)
        → contains name
            (if q && r then k ∷ own_nested attributes names else own_nested attributes names)
          ≡ true
        → MarkedAs (λ a. a.rpc_nested) attributes name
    by_mark true true same rest h = elim (Bool-cases (k == name)) [
      | inl here ↦ found-MarkedAs attributes name (
          ap (λ x. is_nested_attribute (find_attribute x attributes)) (sym (eq_of_same k name here))
          ∙ same)
      | inr other ↦ rest (contains-skip k name (own_nested attributes names) other h)
    ]
    by_mark true false same rest h = rest h
    by_mark false r same rest h = rest h

pub is_nested-MarksNested :
    (i : Instance) (name : String) → is_nested i name ≡ true → MarksNested i name
is_nested-MarksNested i name h =
    let own = contains name (own_nested i.class_attributes i.own_names) in
    elim (or_cases (contains name (marked_nested i.class_attributes))
      (own || contains name i.rpc_nested_attrs) h) [
        | inl marked ↦
            let (a, there, named, nested) = nested-MarkedAs i.class_attributes name marked in
            inl (
              a,
              there,
              named,
              elim (or_cases a.rpc_nested (a.is_property && a.getter_nested) nested) [
                | inl by_mark ↦ inl by_mark
                | inr by_getter ↦ inr (and_both a.is_property a.getter_nested by_getter)
              ],
            )
        | inr other ↦ elim (or_cases own (contains name i.rpc_nested_attrs) other) [
          | inl found ↦
              let (a, there, named, nested) =
                own-MarkedAs i.class_attributes i.own_names name found in
              inl (a, there, named, inl nested)
          | inr listed ↦ inr (Memᴰ-contains name i.rpc_nested_attrs listed)
        ]
      ]
