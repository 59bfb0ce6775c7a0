-- ===== src/Prelude/Strings.antt =====
-- The functions of Go's package `strings` that the program calls, on the characters of a text.
use Prim.Native.Nat.{ℕ, zero, suc, ◌+◌, ◌-◌}
use Prim.Native.Char.{Char, code}
use Prim.Native.String.{String, ◌++◌ as ◌<>◌, count as chars}
use mathlib.Core.Path.{◌≡◌, refl}
use mathlib.Core.Bool.{Bool, true, false, ◌||◌, ◌&&◌, not}
use mathlib.Core.List.{List, [], ◌∷◌}
use native.Mathlib.Omega.{arith}
use text.Mathlib.TextLemmas.{nil-append, cons-append}
use backup_maker_controller.Prelude.Tests.{leb, if◌then◌else◌}

abbrev pub same_code : ℕ → ℕ → Bool
same_code n m = leb n m && leb m n

-- `strings.HasPrefix(s, t)`
unfoldable pub has_prefix : String → String → Bool
has_prefix s String.[] = true
has_prefix String.[] (String.◌∷◌ d t) = false
has_prefix (String.◌∷◌ c s) (String.◌∷◌ d t) = same_code (code c) (code d) && has_prefix s t

join_first : Char → List String → List String
join_first c [] = String.◌∷◌ c "" ∷ []
join_first c (p ∷ ps) = String.◌∷◌ c p ∷ ps

-- `strings.Split` from the left; `skip` counts the characters left of a separator that was found.
split_from : String → ℕ → String → List String
split_from sep skip String.[] = "" ∷ []
split_from sep (suc k) (String.◌∷◌ c s) = split_from sep k s
split_from sep zero (String.◌∷◌ c s) = elim (has_prefix (String.◌∷◌ c s) sep) [
  | true ↦ "" ∷ split_from sep (chars sep - 1) s
  | false ↦ join_first c (split_from sep 0 s)
]

-- `strings.Split(s, sep)` for a separator that is not empty.
unfoldable pub split : String → String → List String
unfolding split_from join_first has_prefix
split s sep = split_from sep 0 s

drop_chars : ℕ → String → String
drop_chars zero s = s
drop_chars (suc n) String.[] = ""
drop_chars (suc n) (String.◌∷◌ c s) = drop_chars n s

-- `strings.Replace(s, old, "", 1)`
unfoldable pub remove_first : String → String → String
unfolding has_prefix drop_chars
remove_first String.[] old = ""
remove_first (String.◌∷◌ c s) old =
    let rest = remove_first s old in
    if has_prefix (String.◌∷◌ c s) old
    then drop_chars (chars old) (String.◌∷◌ c s)
    else String.◌∷◌ c rest

in_cutset : Char → String → Bool
in_cutset c String.[] = false
in_cutset c (String.◌∷◌ d t) = same_code (code c) (code d) || in_cutset c t

trim_left : String → String → String
trim_left cutset String.[] = ""
trim_left cutset (String.◌∷◌ c s) =
    let rest = trim_left cutset s in if in_cutset c cutset then rest else String.◌∷◌ c s

-- The character stays unless it is in the cutset and all behind it is gone.
trim_one : Char → String → String → String
trim_one c cutset String.[] = if in_cutset c cutset then "" else String.◌∷◌ c ""
trim_one c cutset (String.◌∷◌ d s) = String.◌∷◌ c (String.◌∷◌ d s)

trim_right : String → String → String
trim_right cutset String.[] = ""
trim_right cutset (String.◌∷◌ c s) = trim_one c cutset (trim_right cutset s)

-- `strings.Trim(s, cutset)`
unfoldable pub trim : String → String → String
unfolding trim_left trim_right trim_one in_cutset
trim s cutset = trim_right cutset (trim_left cutset s)

lower : ℕ → ℕ
lower c = if leb b'A' c && leb c b'Z' then c + 32 else c

-- `strings.ToLower(s) == t`, for a text `t` whose letters no character outside ASCII lowers to.
unfoldable pub lowers_to : String → String → Bool
unfolding lower
lowers_to String.[] String.[] = true
lowers_to String.[] (String.◌∷◌ d t) = false
lowers_to (String.◌∷◌ c s) String.[] = false
lowers_to (String.◌∷◌ c s) (String.◌∷◌ d t) = same_code (lower (code c)) (code d) && lowers_to s t

-- The text does not hold the character.
unfoldable pub lacks : ℕ → String → Bool
lacks n String.[] = true
lacks n (String.◌∷◌ c s) = not (same_code (code c) n) && lacks n s

split_documents : split "a\n---\nb\n" "---\n" ≡ "a\n" ∷ "b\n" ∷ []
unfolding split
split_documents = refl

trimmed : trim " \n a b \n" " \n" ≡ "a b"
unfolding trim
trimmed = refl

removed : remove_first "x---\ny---\n" "---\n" ≡ "xy---\n"
unfolding remove_first
removed = refl

lowered : lowers_to "True" "true" ≡ true
unfolding lowers_to
lowered = refl

-- A text that is joined with a slash holds one.
pub lacks-joined : (a b : String) → lacks b'/' (a <> ("/" <> b)) ≡ false
unfolding lacks
lacks-joined String.[] b = rw nil-append (rw cons-append refl)
lacks-joined (String.◌∷◌ c s) b = rw (cons-append c s) (ground (arith, lacks-joined s b))

-- A text with no slash, in front of one, is the first piece.
pub split-append :
    (a b : String) → lacks b'/' a ≡ true → split (a <> ("/" <> b)) "/" ≡ a ∷ split b "/"
unfolding split lacks
split-append String.[] b h = rw nil-append (rw cons-append (rw nil-append refl))
split-append (String.◌∷◌ c s) b h = rw (cons-append c s) (ground (arith, split-append s b))

-- A text with no slash is one piece.
pub split_of_lacks : (a : String) → lacks b'/' a ≡ true → split a "/" ≡ a ∷ []
unfolding split lacks
split_of_lacks String.[] h = refl
split_of_lacks (String.◌∷◌ c s) h = ground (arith, split_of_lacks s)
