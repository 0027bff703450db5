-- ===== src/Prelude/Text.antt =====
-- Texts: a `String` or `&str` is the list of its code points.
use Prim.Native.Char.{code}
use Prim.Native.String.{String}
use Prim.Native.Nat.{ℕ, zero, suc, ◌+◌, ◌/◌, ◌%◌}
use mathlib.Core.Path.{◌≡◌}
use mathlib.Core.Logic.{◌↔◌}
use mathlib.Core.Bool.{Bool, true, false, ◌&&◌, ◌||◌}
use mathlib.Core.List.{List, [], ◌∷◌, reverse}
use mathlib.Core.Option.{Option, none, some}
use native.Mathlib.Omega.{arith}
use long_task_orchestration.Prelude.Tests.{eqb, leb, ltb, if◌then◌else◌}
use long_task_orchestration.Prelude.Eq.{PartialEq}

abbrev pub Text : Type 0
Text = List ℕ

abbrev pub str : String → Text
str String.[] = []
str (String.◌∷◌ c s) = code c ∷ str s

unfoldable pub text_beq : Text → Text → Bool
text_beq [] [] = true
text_beq (a ∷ s) (b ∷ t) = eqb a b && text_beq s t
text_beq _ _ = false

pub text_beq_iff : (s t : Text) → (text_beq s t ≡ true) ↔ (s ≡ t)
unfolding text_beq
text_beq_iff [] [] = ground arith
text_beq_iff (a ∷ s) (b ∷ t) = ground (arith, text_beq_iff s t)
text_beq_iff [] (b ∷ t) = ground arith
text_beq_iff (a ∷ s) [] = ground arith

instance abbrev pub text_eq : PartialEq Text
text_eq = record { eq = text_beq; eq_iff = text_beq_iff }

-- `Ord` of strings: byte order, which is the order of the code points.
unfoldable pub text_ltb : Text → Text → Bool
text_ltb [] [] = false
text_ltb [] (b ∷ t) = true
text_ltb (a ∷ s) [] = false
text_ltb (a ∷ s) (b ∷ t) = ltb a b || eqb a b && text_ltb s t

abbrev pub is_empty : Text → Bool
is_empty [] = true
is_empty (c ∷ s) = false

-- `char::is_whitespace`: the code points of the Unicode property White_Space.
unfoldable pub is_whitespace : ℕ → Bool
is_whitespace c =
    leb 9 c && leb c 13
    || eqb c 32
    || eqb c 0x85
    || eqb c 0xa0
    || eqb c 0x1680
    || leb 0x2000 c && leb c 0x200a
    || eqb c 0x2028
    || eqb c 0x2029
    || eqb c 0x202f
    || eqb c 0x205f
    || eqb c 0x3000

unfoldable pub trim_start : Text → Text
unfolding is_whitespace
trim_start [] = []
trim_start (c ∷ s) = let rest = trim_start s in if is_whitespace c then rest else c ∷ s

unfoldable pub trim : Text → Text
unfolding trim_start
trim s = reverse (trim_start (reverse (trim_start s)))

unfoldable pub to_ascii_lower : ℕ → ℕ
to_ascii_lower c = if leb b'A' c && leb c b'Z' then c + 32 else c

-- `str::eq_ignore_ascii_case`
unfoldable pub eq_ignore_ascii_case : Text → Text → Bool
unfolding to_ascii_lower
eq_ignore_ascii_case [] [] = true
eq_ignore_ascii_case (a ∷ s) (b ∷ t) =
    eqb (to_ascii_lower a) (to_ascii_lower b) && eq_ignore_ascii_case s t
eq_ignore_ascii_case _ _ = false

unfoldable pub starts_with : Text → Text → Bool
starts_with s [] = true
starts_with [] (b ∷ t) = false
starts_with (a ∷ s) (b ∷ t) = eqb a b && starts_with s t

unfoldable pub ends_with : Text → Text → Bool
unfolding starts_with
ends_with s t = starts_with (reverse s) (reverse t)

-- `str::contains` of a non-empty pattern, or of the empty one.
unfoldable pub has_substring : Text → Text → Bool
unfolding starts_with
has_substring [] t = starts_with [] t
has_substring (c ∷ s) t = starts_with (c ∷ s) t || has_substring s t

-- The decimal digits of a number, by fuel; a number has at most itself plus one digits.
unfoldable pub digits_from : ℕ → ℕ → Text → Text
digits_from zero n acc = acc
digits_from (suc f) n acc =
    let rest = digits_from f (n / 10) ((n % 10 + 48) ∷ acc) in
    if ltb n 10 then (n + 48) ∷ acc else rest

-- `Display` of an unsigned integer.
unfoldable pub show_nat : ℕ → Text
unfolding digits_from
show_nat n = digits_from (suc n) n []

-- `str::strip_prefix`
unfoldable pub strip_prefix : Text → Text → Option Text
strip_prefix [] s = some s
strip_prefix (a ∷ p) [] = none
strip_prefix (a ∷ p) (b ∷ s) = let rest = strip_prefix p s in if eqb a b then rest else none

-- `str::split_once` with a text as the delimiter.
unfoldable pub split_once : Text → Text → Option (Text × Text)
unfolding strip_prefix
split_once d [] = elim (strip_prefix d []) [ none ↦ none | some rest ↦ some ([], rest) ]
split_once d (c ∷ s) =
    let later = split_once d s in
    elim (strip_prefix d (c ∷ s)) [
      | some rest ↦ some ([], rest)
      | none ↦ elim later [ none ↦ none | some (a, b) ↦ some (c ∷ a, b) ]
    ]

-- `str::split` at a character: never empty.
unfoldable pub split_on : ℕ → Text → List Text
split_on d [] = [] ∷ []
split_on d (c ∷ s) =
    let parts = split_on d s in
    if eqb c d then [] ∷ parts else elim parts [ [] ↦ (c ∷ []) ∷ [] | p ∷ ps ↦ (c ∷ p) ∷ ps ]

-- A line without the carriage return before its end.
strip_cr : Text → Text
strip_cr [] = []
strip_cr (c ∷ []) = if eqb c 13 then [] else c ∷ []
strip_cr (c ∷ d ∷ s) = c ∷ strip_cr (d ∷ s)

-- The pieces between line feeds; the last, unterminated one keeps a carriage return, and is no
-- line if it is empty.
drop_last_empty : List Text → List Text
unfolding strip_cr
drop_last_empty [] = []
drop_last_empty ([] ∷ []) = []
drop_last_empty ((c ∷ s) ∷ []) = (c ∷ s) ∷ []
drop_last_empty (p ∷ q ∷ ps) = strip_cr p ∷ drop_last_empty (q ∷ ps)

-- `str::lines`
unfoldable pub lines : Text → List Text
unfolding split_on drop_last_empty
lines s = drop_last_empty (split_on 10 s)

-- Insertion sort by the order of texts: `Vec<String>::sort`.
unfoldable pub insert_text : Text → List Text → List Text
unfolding text_ltb
insert_text t [] = t ∷ []
insert_text t (u ∷ us) =
    let rest = insert_text t us in if text_ltb u t then u ∷ rest else t ∷ u ∷ us

unfoldable pub sort_texts : List Text → List Text
unfolding insert_text
sort_texts [] = []
sort_texts (t ∷ ts) = insert_text t (sort_texts ts)
