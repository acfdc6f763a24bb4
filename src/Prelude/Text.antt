-- ===== src/Prelude/Text.antt =====
-- Prefixes of texts by characters, as Python's `s[:n]` takes them.
use Prim.Native.Nat.{ℕ, zero, suc, ◌-◌, ◌≤◌}
use Prim.Native.Char.{Char, code}
use Prim.Native.String.{String, count, char_at}
use mathlib.Core.Bool.{◌&&◌}
use ai_calling_agent.Prelude.Tests.{leb, if◌then◌else◌}
use text.Mathlib.TextLemmas.{length-cons}
use native.Mathlib.Omega.{arith}

-- s[:n]
unfoldable pub take_chars : ℕ → String → String
take_chars zero s = String.[]
take_chars (suc n) String.[] = String.[]
take_chars (suc n) (String.◌∷◌ c s) = String.◌∷◌ c (take_chars n s)

pub count-take_chars-le : (n : ℕ) (s : String) → count (take_chars n s) ≤ n
unfolding take_chars
count-take_chars-le zero s = omega arith
count-take_chars-le (suc n) String.[] = omega arith
count-take_chars-le (suc n) (String.◌∷◌ c s) =
    omega (arith, length-cons c (take_chars n s), count-take_chars-le n s)

-- c.lower() of one character, for the letters of ASCII; every other character is kept.
unfoldable pub lower_char : Char → Char
lower_char c =
    if leb 65 (code c) && leb (code c) 90
    then char_at "abcdefghijklmnopqrstuvwxyz" (code c - 65)
    else c

-- s.lower(), for texts of ASCII.
unfoldable pub lower : String → String
unfolding lower_char
lower String.[] = String.[]
lower (String.◌∷◌ c s) = String.◌∷◌ (lower_char c) (lower s)
