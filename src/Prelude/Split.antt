-- ===== src/Prelude/Split.antt =====
-- `String.prototype.split` at a separator of one character, which is given by its code.
use Prim.Native.Nat.{ℕ}
use Prim.Native.Char.{Char, code}
use Prim.Native.String.{String, [], ◌∷◌}
use mathlib.Core.List.{List}
use bfrost.Prelude.Tests.{◌==◌, if◌then◌else◌}

-- A character before the first part.
prepend : Char → List String → List String
prepend c List.[] = List.◌∷◌ (c ∷ []) List.[]
prepend c (List.◌∷◌ part parts) = List.◌∷◌ (c ∷ part) parts

unfoldable pub split_text : ℕ → String → List String
unfolding prepend
split_text separator [] = List.◌∷◌ [] List.[]
split_text separator (c ∷ s) =
    let rest = split_text separator s in
    if code c == separator then List.◌∷◌ [] rest else prepend c rest
