-- ===== src/Client/Subscriptions/Counting.antt =====
-- How many NATS subscriptions serve an entry of the table of client.py.
use camera_ui_rpc.Base.{
  ℕ, suc, ◌≡◌, refl, true, false, none, some, List, [], ◌∷◌, ◌++◌, arith, ℕ_eq, nat_eq, nat_eq_iff,
  if◌then◌else◌,
}
use camera_ui_rpc.Base.Dict.{Dict, lookup, insert, erase, contains, UniqueKeys}
use camera_ui_rpc.Base.Sets.{discard}

pub contains-append :
    (k j : ℕ) (s : List ℕ) → contains k (s ++ j ∷ []) ≡ (if nat_eq j k then true else contains k s)
unfolding contains
contains-append k j [] = refl
contains-append k j (x ∷ s) = ground (arith, contains-append k j s)

pub contains-discard_if :
    (j k : ℕ) (s : List ℕ) → contains k (discard j s) ≡ (if nat_eq j k then false else contains k s)
unfolding contains discard
contains-discard_if j k [] = ground arith
contains-discard_if j k (x ∷ s) = ground (arith, contains-discard_if j k s)

-- how many live subscriptions serve an entry: a message on its pattern comes as often
unfoldable pub count_serving : ℕ → Dict ℕ ℕ → ℕ
count_serving key [] = 0
count_serving key ((n, k) ∷ live) =
    let rest = count_serving key live in if nat_eq k key then suc rest else rest

pub count_serving-insert :
    (key n k : ℕ) (live : Dict ℕ ℕ)
    → lookup n live ≡ none
    → count_serving key (insert n k live)
      ≡ (if nat_eq k key then suc (count_serving key live) else count_serving key live)
unfolding count_serving insert lookup
count_serving-insert key n k [] h = refl
count_serving-insert key n k ((m, j) ∷ live) h =
    ground (arith, h, count_serving-insert key n k live)

pub count_serving-erase_missing :
    (key n : ℕ) (live : Dict ℕ ℕ)
    → lookup n live ≡ none
    → count_serving key (erase n live) ≡ count_serving key live
unfolding count_serving erase lookup
count_serving-erase_missing key n [] h = refl
count_serving-erase_missing key n ((m, j) ∷ live) h =
    ground (arith, h, count_serving-erase_missing key n live)

pub count_serving-erase :
    (key n k : ℕ) (live : Dict ℕ ℕ)
    → UniqueKeys live
    → lookup n live ≡ some k
    → count_serving key live ≡ (
        if nat_eq k key
        then suc (count_serving key (erase n live))
        else count_serving key (erase n live))
unfolding count_serving erase lookup
count_serving-erase key n k [] u h = cc h
count_serving-erase key n k ((m, j) ∷ live) u h = ground (
  arith,
  h,
  u.0,
  nat_eq_iff m n,
  count_serving-erase key n k live u.1,
  count_serving-erase_missing key n live,
)
