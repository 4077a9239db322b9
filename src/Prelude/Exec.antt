-- ===== src/Prelude/Exec.antt =====
-- Code that changes a state and may throw: what was changed before a throw stays changed.
use mathlib.Core.Bool.{Bool, true, false}
use threadserver.Prelude.Tests.{if◌then◌else◌}
use threadserver.Prelude.Results.{Result, ok, err}

abbrev pub Exec : Type 0 → Type 0 → Type 0 → Type 0
Exec S E A = S → Result E A × S

module _ {S E A : Type 0} where
  abbrev pub pure : A → Exec S E A
  pure a s = (ok a, s)

  abbrev pub throw : E → Exec S E A
  throw e s = (err e, s)

  abbrev pub lift : Result E A → Exec S E A
  lift r s = (r, s)

  abbrev pub handled : (E → Exec S E A) → Result E A → Exec S E A
  handled handler (ok a) s = (ok a, s)
  handled handler (err e) s = handler e s

  -- `try { m } catch (...) { handler }`
  abbrev pub try_catch : Exec S E A → (E → Exec S E A) → Exec S E A
  try_catch m handler s = let (r, s') = m s in handled handler r s'

module _ {S E A B : Type 0} where
  abbrev pub continued : (A → Exec S E B) → Result E A → Exec S E B
  continued f (ok a) s = f a s
  continued f (err e) s = (err e, s)

  infixl 5 ◌>>=◌
  abbrev pub ◌>>=◌ : Exec S E A → (A → Exec S E B) → Exec S E B
  ◌>>=◌ m f s = let (r, s') = m s in continued f r s'

module _ {S E B : Type 0} where
  infixl 5 ◌>>◌
  abbrev pub ◌>>◌ : Exec S E (Unit {0}) → Exec S E B → Exec S E B
  m >> k = m >>= λ _. k

abbrev pub modify : {S E : Type 0} → (S → S) → Exec S E (Unit {0})
modify f s = (ok tt, f s)

-- `m` keeps `P`, whether it returns or throws.
pub record Keeps {S E A : Type 0} (P : S → Type 0) (m : Exec S E A) : Type 0 where
  pub holds : (s : S) → P s → P (m s).1

module _ {S E A B : Type 0} {P : S → Type 0} where
  continued-Keeps :
      (r : Result E A) (f : A → Exec S E B) (s : S)
      → ((a : A) → Keeps P (f a))
      → P s
      → P (continued f r s).1
  continued-Keeps (ok a) f s keep h = (keep a).holds s h
  continued-Keeps (err e) f s keep h = h

  pub Keeps-bind :
      (m : Exec S E A) (f : A → Exec S E B)
      → Keeps P m
      → ((a : A) → Keeps P (f a))
      → Keeps P (m >>= f)
  Keeps-bind m f km kf = record {
    holds = λ s h. continued-Keeps (m s).0 f (m s).1 kf (km.holds s h);
  }

module _ {S E A : Type 0} {P : S → Type 0} where
  pub Keeps-lift : (r : Result E A) → Keeps P (lift {S = S} r)
  Keeps-lift r = record { holds = λ s h. h }

  pub Keeps-if :
      (b : Bool) (m n : Exec S E A) → Keeps P m → Keeps P n → Keeps P (if b then m else n)
  Keeps-if true m n km kn = km
  Keeps-if false m n km kn = kn
