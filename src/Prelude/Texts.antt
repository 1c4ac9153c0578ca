-- ===== src/Prelude/Texts.antt =====
-- Texts as the lists of their code points, which are their bytes where the text is ASCII.
use Prim.Native.Nat.{ℕ}
use Prim.Native.String.{String}
use Prim.Native.Char.{code}
use mathlib.Core.Bool.{Bool, true, false, ◌&&◌}
use mathlib.Core.List.{List, [], ◌∷◌}
use determa_state_rust.Prelude.Tests.{◌==◌}

abbrev pub Text : Type 0
Text = List ℕ

abbrev pub codes : String → Text
codes String.[] = []
codes (String.◌∷◌ c s) = code c ∷ codes s

abbrev pub text_is : Text → Text → Bool
text_is [] [] = true
text_is [] (d ∷ t) = false
text_is (c ∷ s) [] = false
text_is (c ∷ s) (d ∷ t) = c == d && text_is s t
