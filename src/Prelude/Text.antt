-- ===== src/Prelude/Text.antt =====
-- Equality of the program's strings, as a decision.
use Prim.Native.String.{String}
use mathlib.Core.Path.{◌≡◌, refl}
use mathlib.Core.Bool.{Bool, true, false}
use mathlib.Core.Logic.{◌≢◌}
use text.Mathlib.Text.{◌==◌}
use text.Mathlib.TextEquality.{eq_iff}

text_decide : (s t : String) (b : Bool) → (s == t) ≡ b → Dec (s ≡ t)
text_decide s t true h = yes ((eq_iff s t).0 h)
text_decide s t false h = no (λ e. cc ((eq_iff s t).1 e))

unfoldable pub text_discrete : Discrete String
unfolding text_decide
text_discrete s t = text_decide s t (s == t) refl

pub texts_differ : (s t : String) → (s == t) ≡ false → s ≢ t
texts_differ s t h e = cc ((eq_iff s t).1 e)
