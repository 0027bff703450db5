-- ===== src/Prelude/Render.antt =====
-- Texts put together: `format!`, `join`, `replace` of one character, and sets of texts.
use Prim.Native.Nat.{ℕ}
use mathlib.Core.Bool.{Bool, true, false}
use mathlib.Core.List.{List, [], ◌∷◌, ◌++◌, map}
use long_task_orchestration.Prelude.Tests.{eqb, if◌then◌else◌}
use long_task_orchestration.Prelude.Eq.{◌==◌}
use long_task_orchestration.Prelude.Text.{
  Text, str, text_eq, text_ltb, to_ascii_lower, is_whitespace,
}

-- `format!`, with its pieces in order.
unfoldable pub concat : List Text → Text
concat [] = []
concat (t ∷ ts) = t ++ concat ts

-- `[String]::join`
unfoldable pub join_with : Text → List Text → Text
join_with sep [] = []
join_with sep (t ∷ []) = t
join_with sep (t ∷ u ∷ us) = t ++ (sep ++ join_with sep (u ∷ us))

-- `str::replace` of a character by a text.
unfoldable pub replace_char : ℕ → Text → Text → Text
replace_char d by [] = []
replace_char d by (c ∷ s) =
    let rest = replace_char d by s in if eqb c d then by ++ rest else c ∷ rest

-- `str::to_ascii_lowercase`
unfoldable pub to_ascii_lowercase : Text → Text
unfolding to_ascii_lower
to_ascii_lowercase s = map to_ascii_lower s

-- `Display` of a `bool`.
abbrev pub show_bool : Bool → Text
show_bool true = str "true"
show_bool false = str "false"

-- `BTreeSet<String>::insert` and `collect`.
unfoldable pub add_to_set : Text → List Text → List Text
unfolding text_ltb
add_to_set t [] = t ∷ []
add_to_set t (u ∷ us) =
    let rest = add_to_set t us in
    if u == t then u ∷ us else if text_ltb t u then t ∷ u ∷ us else u ∷ rest

unfoldable pub set_of : List Text → List Text
unfolding add_to_set
set_of [] = []
set_of (t ∷ ts) = add_to_set t (set_of ts)

-- A word that is not empty, as a list of words.
abbrev pub word_list : Text → List Text
word_list [] = []
word_list (c ∷ s) = (c ∷ s) ∷ []

-- The words of a text, with the characters of the current one.
unfoldable pub words_from : Text → Text → List Text
unfolding is_whitespace
words_from word [] = word_list word
words_from word (c ∷ s) =
    let next = words_from [] s in
    let same = words_from (word ++ (c ∷ [])) s in
    if is_whitespace c then word_list word ++ next else same

-- `str::split_whitespace`
unfoldable pub split_whitespace : Text → List Text
unfolding words_from
split_whitespace s = words_from [] s
