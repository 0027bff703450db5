-- ===== src/Shell.antt =====
-- src/process.rs: the quoting of a value for a shell command line, against a reader of words after
-- the rules of POSIX for single quotes and the backslash. The reader takes no other character outside
-- of quotes, so that what it reads has no meaning of its own for a shell.
use long_task_orchestration.Prelude.{
  ℕ, Bool, true, ◌||◌, [], ◌∷◌, ◌++◌, ◌≡◌, refl, ap, ◌∙◌, Option, none, some, eqb, eqb_iff,
  if◌then◌else◌, arith, Bool-cases, inl, inr,
}
use long_task_orchestration.Prelude.Render.{replace_char}
use long_task_orchestration.Prelude.Text.{Text}

unfoldable pub shell_single_quote : Text → Text
unfolding replace_char
shell_single_quote value = 39 ∷ (replace_char 39 (39 ∷ 92 ∷ 39 ∷ 39 ∷ []) value ++ (39 ∷ []))

abbrev pub is_blank : ℕ → Bool
is_blank c = eqb c 32 || eqb c 9 || eqb c 10

pub data Mode : Type 0 where
  plain quoted escaped : Mode

abbrev with_char : ℕ → Option (Text × Text) → Option (Text × Text)
with_char c none = none
with_char c (some (word, rest)) = some (c ∷ word, rest)

-- A word and what is left behind it.
unfoldable pub read_word : Mode → Text → Option (Text × Text)
read_word plain [] = some ([], [])
read_word plain (c ∷ s) =
    let opened = read_word quoted s in
    let escape = read_word escaped s in
    if eqb c 39
    then opened
    else if eqb c 92
    then escape
    else if is_blank c
    then some ([], c ∷ s)
    else none
read_word quoted [] = none
read_word quoted (c ∷ s) =
    let closed = read_word plain s in
    let inside = read_word quoted s in if eqb c 39 then closed else with_char c inside
read_word escaped [] = none
read_word escaped (c ∷ s) = with_char c (read_word plain s)

-- The text is empty or begins with a blank.
abbrev pub ends_word : Text → Bool
ends_word [] = true
ends_word (c ∷ s) = is_blank c

read_word-end : (rest : Text) → ends_word rest ≡ true → read_word plain rest ≡ some ([], rest)
unfolding read_word
read_word-end [] h = refl
read_word-end (c ∷ s) h = ground (arith, h)

append-quote : (s rest : Text) → (s ++ (39 ∷ [])) ++ rest ≡ s ++ (39 ∷ rest)
append-quote [] rest = refl
append-quote (c ∷ s) rest = ap (λ t. c ∷ t) (append-quote s rest)

read_word-quoted :
    (value rest : Text)
    → ends_word rest ≡ true
    → read_word quoted (replace_char 39 (39 ∷ 92 ∷ 39 ∷ 39 ∷ []) value ++ (39 ∷ rest))
      ≡ some (value, rest)
unfolding read_word replace_char
read_word-quoted [] rest h = read_word-end rest h
read_word-quoted (c ∷ value) rest h = elim (Bool-cases (eqb c 39)) [
  | inl quote ↦
      let same : c ≡ 39 = (eqb_iff c 39).0 quote in
      rw same (ground (arith, read_word-quoted value rest h))
  | inr other ↦ rw (other) (rw (other) (ground (arith, read_word-quoted value rest h, other)))
]

-- The quoted form of a value is one word, which reads as the value itself, whatever its characters
-- are, and the reader stops behind it.
pub shell_single_quote-read_word :
    (value rest : Text)
    → ends_word rest ≡ true
    → read_word plain (shell_single_quote value ++ rest) ≡ some (value, rest)
unfolding shell_single_quote read_word
shell_single_quote-read_word value rest h =
    ap (read_word quoted) (append-quote (replace_char 39 (39 ∷ 92 ∷ 39 ∷ 39 ∷ []) value) rest)
    ∙ read_word-quoted value rest h
