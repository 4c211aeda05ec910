-- ===== src/Prelude/Results.antt =====
-- `Result<T, E>` of Rust, and the `?` operator as the bind of a `do` block.
use mathlib.Core.Path.{◌≡◌, refl}
use mathlib.Core.Logic.{◌⊎◌, inl, inr}
use mathlib.Core.Bool.{Bool, true, false}
use mathlib.Core.Option.{Option, none, some}
use native.Mathlib.Omega.{arith}
use Prim.Native.Nat.{ℕ}
use graph_tally.Prelude.Tests.{if◌then◌else◌, ◌==◌, ==_iff}

pub data Result {ℓ κ} (A : Type ℓ) (E : Type κ) : Type (ℓ ⊔ κ) where
  ok : A → Result A E
  err : E → Result A E

-- `.map_err(f)`
abbrev pub map_err {ℓ κ μ} :
    {A : Type ℓ} {E : Type κ} {F : Type μ} → (E → F) → Result A E → Result A F
map_err f (ok a) = ok a
map_err f (err e) = err (f e)

infixl 5 ◌>>=◌
abbrev pub ◌>>=◌ {ℓ κ μ} :
    {A : Type ℓ} {E : Type κ} {B : Type μ} → Result A E → (A → Result B E) → Result B E
err failure >>= next = err failure
ok value >>= next = next value

-- `.ok_or(e)`
abbrev pub ok_or {ℓ κ} : {A : Type ℓ} {E : Type κ} → Option A → E → Result A E
ok_or none e = err e
ok_or (some a) e = ok a

-- `if !test { return Err(e) }`
abbrev pub guard {κ} : {E : Type κ} → Bool → E → Result (Unit {0}) E
guard false failure = err failure
guard true failure = ok tt

infixl 5 ◌>>◌
abbrev pub ◌>>◌ {ℓ κ} : {E : Type κ} {B : Type ℓ} → Result (Unit {0}) E → Result B E → Result B E
test >> next = test >>= λ _. next

-- `Option::map`, `unwrap_or`
abbrev pub map_or {ℓ κ} : {A : Type ℓ} {B : Type κ} → Option A → B → (A → B) → B
map_or none b f = b
map_or (some a) b f = f a

pub >>=-eq-ok {ℓ κ μ} :
    {A : Type ℓ} {E : Type κ} {B : Type μ} (first_part : Result A E) (next : A → Result B E)
    {whole : B}
    → (first_part >>= next) ≡ ok whole
    → (value : A) × (first_part ≡ ok value) × (next value ≡ ok whole)
>>=-eq-ok (err failure) next e = cc
>>=-eq-ok (ok value) next e = (value, refl, e)

pub Result-cases {ℓ κ} :
    {A : Type ℓ} {E : Type κ} (r : Result A E) → ((a : A) × (r ≡ ok a)) ⊎ ((e : E) × (r ≡ err e))
Result-cases (ok a) = inl (a, refl)
Result-cases (err e) = inr (e, refl)

pub map_err-eq-ok {ℓ κ μ} :
    {A : Type ℓ} {E : Type κ} {F : Type μ} (f : E → F) (r : Result A E) {a : A}
    → map_err f r ≡ ok a
    → r ≡ ok a
map_err-eq-ok f (ok b) h = ground arith
map_err-eq-ok f (err e) h = absurd (cc h)

-- A test that returns early with an error has failed where the result is good.
pub if-err-eq-ok {ℓ κ} :
    {A : Type ℓ} {E : Type κ} (b : Bool) (e : E) (r : Result A E) {a : A}
    → (if b then err e else r) ≡ ok a
    → (b ≡ false) × (r ≡ ok a)
if-err-eq-ok true e r h = absurd (cc h)
if-err-eq-ok false e r h = (refl, h)

pub guard-true {κ} : {E : Type κ} (b : Bool) (e : E) {x : Unit {0}} → guard b e ≡ ok x → b ≡ true
guard-true true e h = refl
guard-true false e h = absurd (cc h)

pub guard_== {κ} : {E : Type κ} (a b : ℕ) (e : E) {x : Unit {0}} → guard (a == b) e ≡ ok x → a ≡ b
guard_== a b e h = (==_iff a b).0 (guard-true (a == b) e h)
