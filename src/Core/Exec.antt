-- ===== src/Core/Exec.antt =====
-- A method that changes the storage and may fail. What was written before an error stays written,
-- so the storage comes back beside the error too.
use graph_tally.Prelude.{◌≡◌, Result, ok, err, arith}

abbrev pub Exec : Type 0 → Type 0 → Type 0 → Type 0
Exec S E A = S → Result A E × S

module _ {S E A : Type 0} where
  abbrev pub pure : A → Exec S E A
  pure a s = (ok a, s)

  -- A step that only reads.
  abbrev pub reads : (S → Result A E) → Exec S E A
  reads f s = (f s, s)

  -- `.map_err(f)` on a step.
  abbrev pub or_else : {F : Type 0} → (F → E) → Exec S F A → Exec S E A
  or_else f m s = let (r, s') = m s in (elim r [ ok a ↦ ok a | err e ↦ err (f e) ], s')

infixl 5 ◌>>=◌ ◌>>◌
abbrev pub ◌>>=◌ : {S E A B : Type 0} → Exec S E A → (A → Exec S E B) → Exec S E B
◌>>=◌ m f s = let (r, s') = m s in elim r [ ok a ↦ f a s' | err e ↦ (err e, s') ]

abbrev pub ◌>>◌ : {S E A B : Type 0} → Exec S E A → Exec S E B → Exec S E B
m >> k = m >>= λ _. k

-- A test that passes, or fails, before the rest.
pub reads_ok :
    {S E A B : Type 0} (f : S → Result A E) (k : A → Exec S E B) (s : S) (a : A)
    → f s ≡ ok a
    → (reads f >>= k) s ≡ k a s
reads_ok f k s a h = rw h

pub reads_err :
    {S E A B : Type 0} (f : S → Result A E) (k : A → Exec S E B) (s : S) (e : E)
    → f s ≡ err e
    → (reads f >>= k) s ≡ (err e, s)
reads_err f k s e h = rw h

-- A step that changes the state, or fails, before the rest.
pub or_else_ok :
    {S E F A B : Type 0} (f : F → E) (m : Exec S F A) (k : A → Exec S E B) (s s' : S) (a : A)
    → m s ≡ (ok a, s')
    → (or_else f m >>= k) s ≡ k a s'
or_else_ok f m k s s' a h = ground (arith, h)

pub or_else_err :
    {S E F A B : Type 0} (f : F → E) (m : Exec S F A) (k : A → Exec S E B) (s s' : S) (e : F)
    → m s ≡ (err e, s')
    → (or_else f m >>= k) s ≡ (err (f e), s')
or_else_err f m k s s' e h = ground (arith, h)
