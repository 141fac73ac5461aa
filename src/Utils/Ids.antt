-- ===== src/Utils/Ids.antt =====
-- `generate_reply_prefix` of utils.py. A character is its position in `_ID_CHARS`, and the random
-- bits are an argument. The loop over `value` has ten rounds at most, since 2^48 < 36^10; what does
-- not end in them is `none`.
use native.Mathlib.Numerals.{unary_clauses}
use camera_ui_rpc.Base.{
  ℕ, zero, suc, ◌+◌, ◌-◌, ◌*◌, ◌/◌, ◌%◌, ◌^◌, ◌≤◌, ◌<◌, ◌≡◌, refl, ap, ◌∙◌, true, Option, none,
  some, List, [], ◌∷◌, ◌++◌, length, replicate, nat_eq, arith, Bool-cases, inl, inr, if◌then◌else◌,
  length-replicate, length-append,
}

-- the loop: `chars` so far are reversed, as they stand in the text
unfoldable pub digits_from : ℕ → ℕ → List ℕ → Option (List ℕ)
digits_from zero value chars = if nat_eq value 0 then some chars else none
digits_from (suc n) value chars =
    let rest = digits_from n (value / 36) (value % 36 ∷ chars) in
    if nat_eq value 0 then some chars else rest

-- `text.rjust(10, "0")`
unfoldable pub rjust : List ℕ → List ℕ
rjust chars = replicate (10 - length chars) 0 ++ chars

abbrev pub justified : Option (List ℕ) → Option (List ℕ)
justified none = none
justified (some chars) = some (rjust chars)

unfoldable pub generate_reply_prefix : ℕ → Option (List ℕ)
unfolding digits_from rjust
generate_reply_prefix value = justified (digits_from 10 value [])

-- the number that a text in base 36 stands for, read from the left
abbrev pub number_from : ℕ → List ℕ → ℕ
number_from seen [] = seen
number_from seen (c ∷ chars) = number_from (36 * seen + c) chars

abbrev pub IsBase36 : List ℕ → Type 0
IsBase36 [] = Unit
IsBase36 (c ∷ chars) = (c < 36) × IsBase36 chars

next_power : (n value : ℕ) → value < 36 ^ suc n → value / 36 < 36 ^ n
next_power n value h =
    let power : 36 ^ suc n ≡ 36 ^ n * 36 = simp unary_clauses refl in omega (arith, h, power)

-- The loop ends within `n` rounds, with at most `n` characters more; reading the text gives what
-- reading `chars` gives with the value in front.
digits_from_lem :
    (n value : ℕ) (chars : List ℕ)
    → value < 36 ^ n
    → IsBase36 chars
    → (ds : List ℕ) × (digits_from n value chars ≡ some ds)
      × (length ds ≤ n + length chars)
      × IsBase36 ds
      × (number_from 0 ds ≡ number_from value chars)
unfolding digits_from
digits_from_lem zero value chars h k =
    let done : nat_eq value 0 ≡ true = ground arith in
    let same : value ≡ 0 = omega arith in (chars, rw done refl, omega arith, k, rw same refl)
digits_from_lem (suc n) value chars h k = elim (Bool-cases (nat_eq value 0)) [
  | inl done ↦
      let same : value ≡ 0 = ground arith in (chars, rw done refl, omega arith, k, rw same refl)
  | inr more ↦
      let smaller : value / 36 < 36 ^ n = next_power n value h in
      let (ds, result, size, digits, number) =
        digits_from_lem n (value / 36) (value % 36 ∷ chars) smaller (omega arith, k) in
      let joined : 36 * (value / 36) + value % 36 ≡ value = omega arith in
      (
        ds,
        rw more result,
        omega (arith, size),
        digits,
        number ∙ ap (λ v. number_from v chars) joined,
      )
]

zeros_in_front :
    (k : ℕ) (chars : List ℕ) → number_from 0 (replicate k 0 ++ chars) ≡ number_from 0 chars
zeros_in_front zero chars = refl
zeros_in_front (suc k) chars = zeros_in_front k chars

zeros-IsBase36 : (k : ℕ) (chars : List ℕ) → IsBase36 chars → IsBase36 (replicate k 0 ++ chars)
zeros-IsBase36 zero chars h = h
zeros-IsBase36 (suc k) chars h = (omega arith, zeros-IsBase36 k chars h)

-- For 48 random bits a reply prefix is a text of exactly ten characters in base 36, which stands
-- for those bits.
pub generate_reply_prefix_lem :
    (value : ℕ)
    → value < 2 ^ 48
    → (ds : List ℕ) × (generate_reply_prefix value ≡ some ds)
      × (length ds ≡ 10)
      × IsBase36 ds
      × (number_from 0 ds ≡ value)
unfolding generate_reply_prefix rjust
generate_reply_prefix_lem value h =
    let (ds, result, size, digits, number) = digits_from_lem 10 value [] (omega arith) tt in
    let padding : ℕ = 10 - length ds in
    let short : length ds ≤ 10 = omega (arith, size) in
    let zeros : List ℕ = replicate padding 0 in
    (
      zeros ++ ds,
      rw result refl,
      omega (arith, short, length-append zeros ds, length-replicate {A = ℕ} padding 0),
      zeros-IsBase36 padding ds digits,
      zeros_in_front padding ds ∙ number,
    )
