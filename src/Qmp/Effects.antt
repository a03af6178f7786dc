-- ===== src/Qmp/Effects.antt =====
-- Steps that change a state and can fail: what an `async fn` that returns a `Result` does to what it
-- holds. An error keeps the changes that were made before it.
use andler.Base.{Result, ok, err}

abbrev pub Io : Type 0 → Type 0 → Type 0 → Type 0
Io S E A = S → S × Result A E

module _ {S E A : Type 0} where
  abbrev pub pure : A → Io S E A
  pure a s = (s, ok a)

  abbrev pub fail : E → Io S E A
  fail e s = (s, err e)

  -- A result that was computed, taken with `?`.
  abbrev pub lift : Result A E → Io S E A
  lift r s = (s, r)

module _ {S E F A : Type 0} where
  abbrev pub caught : (E → Io S F A) → S × Result A E → S × Result A F
  caught handler (s, ok a) = (s, ok a)
  caught handler (s, err e) = handler e s

  -- `match` on the error of a step.
  abbrev pub catch : Io S E A → (E → Io S F A) → Io S F A
  catch m handler s = caught handler (m s)

module _ {S E A B : Type 0} where
  abbrev pub followed : (A → Io S E B) → S × Result A E → S × Result B E
  followed next (s, ok a) = next a s
  followed next (s, err e) = (s, err e)

infixl 5 ◌>>=◌
abbrev pub ◌>>=◌ : {S E A B : Type 0} → Io S E A → (A → Io S E B) → Io S E B
(m >>= next) s = followed next (m s)
