-- ===== src/Control/Texts.antt =====
-- The argument checks of src/people_counter/sjd_control.py: `_required_text`, `_positive_finite`,
-- `_positive_int`, `_validated_sha256`, `_new_id` and `_allowed_work_scope`.
use people_counter.Prelude.{
  ℕ, String, Bool, true, false, ◌&&◌, ◌||◌, List, [], ◌∷◌, leb, nat_eq, ◌==◌, if◌then◌else◌, Result,
  ok, err, value_error, ◌>>=◌, Option, none, some,
}
use people_counter.Prelude.Texts.{is_blank, str_leb}
use people_counter.Prelude.Sorting.{sort}
use Prim.Native.Char.{Char, code}
use Prim.Native.String.{count}

-- The text itself, not a stripped copy.
unfoldable pub required_text : String → Result String
required_text value = if is_blank value then err value_error else ok value

unfoldable pub positive : ℕ → Result ℕ
positive value = if leb value 0 then err value_error else ok value

-- `1 <= value <= 100`
abbrev pub within_hundred : ℕ → Bool
within_hundred value = leb 1 value && leb value 100

abbrev is_hex : Char → Bool
is_hex c = let n = code c in (leb b'0' n && leb n b'9') || (leb b'a' n && leb n b'f')

unfoldable pub all_hex : String → Bool
all_hex String.[] = true
all_hex (String.◌∷◌ c s) = is_hex c && all_hex s

unfoldable pub validated_sha256 : String → Result String
unfolding required_text all_hex is_hex
validated_sha256 value = do
  text ← required_text value
  if nat_eq (count text) 64 && all_hex text then ok text else err value_error

-- The `n`-th id that the id factory gives in one call of a method.
unfoldable pub new_id : (ℕ → String) → ℕ → Result String
unfolding required_text
new_id ids n = required_text (ids n)

unfoldable pub member : String → List String → Bool
member k [] = false
member k (j ∷ js) = j == k || member k js

-- The elements of a set, each once.
unfoldable pub unique : List String → List String
unfolding member
unique [] = []
unique (k ∷ ks) = let rest = unique ks in if member k rest then rest else k ∷ rest

required_texts : List String → Result (List String)
unfolding required_text
required_texts [] = ok []
required_texts (k ∷ ks) = do t ← required_text k; ts ← required_texts ks; ok (t ∷ ts)

-- `_allowed_work_scope`
unfoldable pub allowed_work_scope : Option (List String) → Result (Option (List String))
unfolding required_texts unique sort
allowed_work_scope none = ok none
allowed_work_scope (some ids) = do
  texts ← required_texts ids
  ok (some (sort str_leb (unique texts)))
