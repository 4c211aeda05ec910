-- ===== src/Prelude/Decimal.antt =====
-- `to_string` and `parse` of unsigned integers, on the bytes of the text.
use Prim.Native.Nat.{ℕ, zero, suc, ◌+◌, ◌-◌, ◌*◌, ◌/◌, ◌%◌, ◌≤◌, ◌<◌}
use mathlib.Core.Path.{◌≡◌, refl}
use mathlib.Core.Bool.{◌&&◌}
use mathlib.Core.Logic.{◌≢◌, inl, inr}
use mathlib.Core.List.{List, [], ◌∷◌, ◌++◌}
use mathlib.Core.Option.{Option, none, some}
use native.Mathlib.Omega.{arith}
use graph_tally.Prelude.Tests.{if◌then◌else◌, ltb, leb, ◌==◌, Bool-cases}
use graph_tally.Prelude.Results.{map_or}

-- The digits of `n`; `n + 1` is fuel enough, as each round divides by ten.
digits_of : ℕ → ℕ → List ℕ
digits_of zero n = []
digits_of (suc fuel) n =
    let rest = digits_of fuel (n / 10) in
    if ltb n 10 then (48 + n) ∷ [] else rest ++ (48 + n % 10) ∷ []

unfoldable pub to_decimal : ℕ → List ℕ
unfolding digits_of
to_decimal n = digits_of (suc n) n

-- The loop of `from_str` at a modulus: none is a byte that is no digit, or an overflow.
read_digits : ℕ → ℕ → List ℕ → Option ℕ
read_digits modulus acc [] = some acc
read_digits modulus acc (c ∷ cs) =
    let next = acc * 10 + (c - 48) in
    let rest = read_digits modulus next cs in
    if leb 48 c && leb c 57 then (if ltb next modulus then rest else none) else none

-- A leading plus is read over; nothing at all is no number.
unfoldable pub parse_unsigned : ℕ → List ℕ → Option ℕ
unfolding read_digits
parse_unsigned modulus [] = none
parse_unsigned modulus (c ∷ []) = read_digits modulus 0 (c ∷ [])
parse_unsigned modulus (c ∷ d ∷ cs) =
    if c == b'+' then read_digits modulus 0 (d ∷ cs) else read_digits modulus 0 (c ∷ d ∷ cs)

module _ (modulus : ℕ) where
  read_digits-append :
      (acc : ℕ) (xs ys : List ℕ)
      → read_digits modulus acc (xs ++ ys)
        ≡ map_or (read_digits modulus acc xs) none (λ a. read_digits modulus a ys)
  unfolding read_digits
  read_digits-append acc [] ys = refl
  read_digits-append acc (c ∷ cs) ys =
      ground (arith, read_digits-append (acc * 10 + (c - 48)) cs ys)

  read_digits-digits_of :
      (fuel n : ℕ) → n < fuel → n < modulus → read_digits modulus 0 (digits_of fuel n) ≡ some n
  unfolding read_digits digits_of
  read_digits-digits_of zero n h small = elim h [ ]
  read_digits-digits_of (suc fuel) n h small = elim (Bool-cases (ltb n 10)) [
    | inl one ↦ rw one (ground (arith, one))
    | inr more ↦
        let big : 10 ≤ n = ground arith in
        rw
          (
            more,
            read_digits-append 0 (digits_of fuel (n / 10)) ((48 + n % 10) ∷ []),
            read_digits-digits_of fuel (n / 10) (omega arith) (omega arith),
          )
          (ground (arith, small, big))
  ]

  parse_unsigned-read_digits :
      (text : List ℕ) (n : ℕ)
      → text ≢ []
      → read_digits modulus 0 text ≡ some n
      → parse_unsigned modulus text ≡ some n
  unfolding parse_unsigned
  parse_unsigned-read_digits [] n h e = absurd (h refl)
  parse_unsigned-read_digits (c ∷ []) n h e = e
  parse_unsigned-read_digits (c ∷ d ∷ cs) n h e = ground (arith, e)

append_ne : (xs : List ℕ) (y : ℕ) → (xs ++ y ∷ []) ≢ []
append_ne [] y h = cc h
append_ne (x ∷ xs) y h = cc h

digits_of_ne : (fuel n : ℕ) → digits_of (suc fuel) n ≢ []
unfolding digits_of
digits_of_ne fuel n h = elim (Bool-cases (ltb n 10)) [
  | inl one ↦ cc (rw (one, digits_of) at h)
  | inr more ↦ append_ne (digits_of fuel (n / 10)) (48 + n % 10) (rw (more, digits_of) at h)
]

-- A number that is printed reads back.
pub parse_unsigned-to_decimal :
    (modulus n : ℕ) → n < modulus → parse_unsigned modulus (to_decimal n) ≡ some n
unfolding to_decimal
parse_unsigned-to_decimal modulus n h =
    parse_unsigned-read_digits modulus (digits_of (suc n) n) n (digits_of_ne n n)
      (read_digits-digits_of modulus (suc n) n (omega arith) h)
