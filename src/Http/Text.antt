-- ===== src/Http/Text.antt =====
-- Functions of the strings package that the handlers use.
use Prim.Native.Char.{Char, code}
use Prim.Native.String.{[], ◌∷◌}
use idlegrid.Prelude.{ℕ, Bool, true, false, ◌&&◌, ◌==◌, String}

abbrev pub is_nil : String → Bool
is_nil [] = true
is_nil (c ∷ s) = false

abbrev keep : Char → Bool → String → String
keep c true s = []
keep c false s = c ∷ s

-- `strings.TrimRight(s, …)`, of a cutset of one character, by its number.
unfoldable pub trim_right : ℕ → String → String
trim_right n [] = []
trim_right n (c ∷ s) = let rest = trim_right n s in keep c ((code c == n) && is_nil rest) rest
