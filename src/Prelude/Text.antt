-- ===== src/Prelude/Text.antt =====
-- Go's equality of strings.
use Prim.Native.String.{String}
use mathlib.Core.Path.{◌≡◌, refl, sym, ◌∙◌}
use mathlib.Core.Bool.{Bool, true, false, false≢true}
use text.Mathlib.Text.{◌==◌ as str_eq}
use text.Mathlib.TextEquality.{eq_iff}

unfoldable pub string_discrete : Discrete String
string_discrete s t = decide (str_eq s t) refl
  where
    decide : (b : Bool) → str_eq s t ≡ b → Dec (s ≡ t)
    decide true e = yes ((eq_iff s t).0 e)
    decide false e = no (λ p. false≢true (sym e ∙ (eq_iff s t).1 p))

pub str_eq-false : (s t : String) → str_eq s t ≡ false → ¬ (s ≡ t)
str_eq-false s t e p = false≢true (sym e ∙ (eq_iff s t).1 p)
