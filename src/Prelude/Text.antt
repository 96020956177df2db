-- ===== src/Prelude/Text.antt =====
-- Texts as template literals build them.
use Prim.Native.Nat.{ℕ, zero, suc, ◌+◌, ◌/◌, ◌%◌}
use Prim.Native.String.{String, ◌++◌ as str_append, len, find as str_find}
use mathlib.Core.List.{List, [], ◌∷◌}
use mathlib.Core.Bool.{Bool}
use bfrost.Prelude.Tests.{ltb, leb, if◌then◌else◌}

-- A template literal: its parts, one after the other.
abbrev pub concat_texts : List String → String
concat_texts [] = ""
concat_texts (x ∷ xs) = str_append x (concat_texts xs)

digit : ℕ → String
digit zero = "0"
digit (suc zero) = "1"
digit (suc (suc zero)) = "2"
digit (suc (suc (suc zero))) = "3"
digit (suc (suc (suc (suc zero)))) = "4"
digit (suc (suc (suc (suc (suc zero))))) = "5"
digit (suc (suc (suc (suc (suc (suc zero)))))) = "6"
digit (suc (suc (suc (suc (suc (suc (suc zero))))))) = "7"
digit (suc (suc (suc (suc (suc (suc (suc (suc zero)))))))) = "8"
digit _ = "9"

digits_of : ℕ → ℕ → String
digits_of zero n = ""
digits_of (suc fuel) n =
    let front = digits_of fuel (n / 10) in
    if ltb n 10 then digit n else str_append front (digit (n % 10))

-- `${n}`: a number has fewer digits than it has units, and one more.
unfoldable pub decimal : ℕ → String
unfolding digits_of digit
decimal n = digits_of (n + 1) n

-- `String.prototype.includes`: the position that is found is one in the text.
abbrev pub text_includes : String → String → Bool
text_includes s t = leb (str_find s t) (len s)

-- `Buffer.byteLength(text, 'utf8')`.
abbrev pub byte_length : String → ℕ
byte_length s = len s
