-- ===== src/Prelude/Texts.antt =====
-- Python's text tests that the code uses: `str.strip`, and the order of texts.
use people_counter.Prelude.Tests.{leb, nat_eq, if◌then◌else◌}
use Prim.Native.Nat.{Ordering}
use Prim.Native.Char.{Char, code}
use Prim.Native.String.{String, compare, ◌++◌}
use mathlib.Core.Path.{◌≡◌, refl}
use mathlib.Core.Bool.{Bool, true, false, ◌&&◌, ◌||◌}

-- `str.isspace` of one character
is_space : Char → Bool
is_space c =
    let n = code c in
    (leb 9 n && leb n 13)
    || (leb 28 n && leb n 32)
    || nat_eq n 0x85
    || nat_eq n 0xa0
    || nat_eq n 0x1680
    || (leb 0x2000 n && leb n 0x200a)
    || nat_eq n 0x2028
    || nat_eq n 0x2029
    || nat_eq n 0x202f
    || nat_eq n 0x205f
    || nat_eq n 0x3000

lstrip : String → String
lstrip String.[] = String.[]
lstrip (String.◌∷◌ c s) = if is_space c then lstrip s else String.◌∷◌ c s

-- Whether `s.strip()` is empty.
unfoldable pub is_blank : String → Bool
unfolding is_space
is_blank String.[] = true
is_blank (String.◌∷◌ c s) = is_space c && is_blank s

rstrip : String → String
rstrip String.[] = String.[]
rstrip (String.◌∷◌ c s) =
    let rest = rstrip s in if is_blank (String.◌∷◌ c s) then String.[] else String.◌∷◌ c rest

-- `s.strip()`
unfoldable pub strip : String → String
unfolding lstrip rstrip is_blank is_space
strip s = rstrip (lstrip s)

-- `s <= t` of two texts, by code points
abbrev pub str_leb : String → String → Bool
str_leb s t = elim (compare s t) [ Ordering.gt ↦ false | _ ↦ true ]

strip_sides : strip "  a b\t" ≡ "a b"
unfolding strip
strip_sides = refl

strip_blank : strip " \t " ≡ ""
unfolding strip
strip_blank = refl

-- The text `s` after the text `prefix`.
abbrev pub prefixed : String → String → String
prefixed prefix s = prefix ++ s
