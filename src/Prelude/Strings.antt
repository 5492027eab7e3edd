-- ===== src/Prelude/Strings.antt =====
-- Methods of `str`, on texts.
use Prim.Native.Nat.{ℕ}
use mathlib.Core.Bool.{Bool, true, false, ◌&&◌, ◌||◌}
use mathlib.Core.Option.{Option, none, some}
use mathlib.Core.List.{[], ◌∷◌, ◌++◌}
use blindjoin.Prelude.Tests.{if◌then◌else◌, leb}
use blindjoin.Prelude.Eq.{Text, ◌==◌, nat_eq}

-- What follows a prefix.
unfoldable pub strip_prefix : Text → Text → Option Text
strip_prefix [] s = some s
strip_prefix (p ∷ ps) [] = none
strip_prefix (p ∷ ps) (c ∷ cs) = let rest = strip_prefix ps cs in if p == c then rest else none

abbrev pub is_some {ℓ} : {A : Type ℓ} → Option A → Bool
is_some none = false
is_some (some a) = true

abbrev pub starts_with : Text → Text → Bool
starts_with p s = is_some (strip_prefix p s)

-- `contains` of a text, and of a character
unfoldable pub contains : Text → Text → Bool
unfolding strip_prefix
contains p [] = starts_with p []
contains p (c ∷ cs) = elim (strip_prefix p (c ∷ cs)) [ some rest ↦ true | none ↦ contains p cs ]

-- `replacen(p, q, 1)`
unfoldable pub replace_first : Text → Text → Text → Text
unfolding strip_prefix
replace_first p q [] = elim (strip_prefix p []) [ some rest ↦ q | none ↦ [] ]
replace_first p q (c ∷ cs) = elim (strip_prefix p (c ∷ cs)) [
  | some rest ↦ q ++ rest
  | none ↦ c ∷ replace_first p q cs
]

-- `trim_end_matches` of a character
unfoldable pub trim_end_matches : ℕ → Text → Text
trim_end_matches d [] = []
trim_end_matches d (c ∷ cs) = elim (trim_end_matches d cs) [
  | [] ↦ if c == d then [] else c ∷ []
  | e ∷ es ↦ c ∷ e ∷ es
]

-- What stands before and after the first occurrence of a character.
unfoldable pub split_once : ℕ → Text → Option (Text × Text)
split_once d [] = none
split_once d (c ∷ cs) =
    let rest = split_once d cs in
    if c == d
    then some ([], cs)
    else elim rest [ none ↦ none | some (head, tail) ↦ some (c ∷ head, tail) ]

-- What follows the last occurrence of a character; without one, the whole text.
unfoldable pub after_last : ℕ → Text → Text
unfolding split_once
after_last d [] = []
after_last d (c ∷ cs) = elim (split_once d cs) [
  | some found ↦ after_last d cs
  | none ↦ if c == d then cs else c ∷ cs
]

-- `replace` of a character by another
unfoldable pub replace_char : ℕ → ℕ → Text → Text
replace_char d e [] = []
replace_char d e (c ∷ cs) = let rest = replace_char d e cs in if c == d then e ∷ rest else c ∷ rest

-- `char::is_whitespace`
abbrev pub is_whitespace : ℕ → Bool
is_whitespace c =
    (leb 9 c && leb c 13)
    || ((c == 32)
        || ((c == 0x85)
            || ((c == 0xA0)
                || ((c == 0x1680)
                    || ((leb 0x2000 c && leb c 0x200A)
                        || ((c == 0x2028)
                            || ((c == 0x2029)
                                || ((c == 0x202F) || ((c == 0x205F) || (c == 0x3000))))))))))

unfoldable pub trim_start : Text → Text
trim_start [] = []
trim_start (c ∷ cs) = let rest = trim_start cs in if is_whitespace c then rest else c ∷ cs

unfoldable pub trim_end : Text → Text
trim_end [] = []
trim_end (c ∷ cs) = elim (trim_end cs) [
  | [] ↦ if is_whitespace c then [] else c ∷ []
  | d ∷ ds ↦ c ∷ d ∷ ds
]
