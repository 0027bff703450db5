-- ===== src/Events/Digits.antt =====
-- src/events.rs: the counter file is read back as the number that was written.
use mathlib.Core.List.{reverse, reverse_aux, reverse-reverse}
use long_task_orchestration.Prelude.{
  ℕ, zero, suc, ◌+◌, ◌*◌, ◌/◌, ◌%◌, ◌-◌, ◌≤◌, ◌<◌, ◌≡◌, refl, ap, ◌∙◌, true, [], ◌∷◌, some, length,
  leb, ltb, All, arith, Bool-cases, inl, inr, ◌&&◌,
}
use long_task_orchestration.Prelude.Text.{
  Text, trim, trim_start, is_whitespace, show_nat, digits_from,
}
use long_task_orchestration.Dispatch.{u64_max}
use long_task_orchestration.Events.{parse_digits, parse_usize}

abbrev Digits : Text → Type 0
Digits s = All (λ c. leb 48 c && leb c 57 ≡ true) s

parse_digit :
    (n c : ℕ) (s : Text)
    → leb 48 c && leb c 57 ≡ true
    → n * 10 + (c - 48) ≤ u64_max
    → parse_digits n (c ∷ s) ≡ parse_digits (n * 10 + (c - 48)) s
unfolding parse_digits
parse_digit n c s h k = ground (arith, h, k)

-- The digits of a number, read from the left, come to the number.
parse-digits_from :
    (f n : ℕ) (acc : Text)
    → n < f
    → n ≤ u64_max
    → parse_digits 0 (digits_from f n acc) ≡ parse_digits n acc
unfolding digits_from
parse-digits_from zero n acc h k = absurd (omega (arith, h))
parse-digits_from (suc f) n acc h k = elim (Bool-cases (ltb n 10)) [
  | inl last ↦ rw last (
      parse_digit 0 (n + 48) acc (ground (arith, last)) (ground (arith, last))
      ∙ ap (λ m. parse_digits m acc) (omega arith))
  | inr more ↦ rw more (
      parse-digits_from f (n / 10) ((n % 10 + 48) ∷ acc) (ground (arith, more, h, k))
        (ground (arith, more, h, k))
      ∙ parse_digit (n / 10) (n % 10 + 48) acc (ground (arith, more, h, k))
          (ground (arith, more, h, k))
      ∙ ap (λ m. parse_digits m acc) (ground (arith, more, h, k)))
]

digits_from-Digits : (f n : ℕ) (acc : Text) → n < f → Digits acc → Digits (digits_from f n acc)
unfolding digits_from
digits_from-Digits zero n acc h d = d
digits_from-Digits (suc f) n acc h d = elim (Bool-cases (ltb n 10)) [
  | inl last ↦ rw last (ground (arith, last), d)
  | inr more ↦ rw more (
      digits_from-Digits f (n / 10) ((n % 10 + 48) ∷ acc) (ground (arith, more, h))
        (ground (arith, more), d))
]

digits_from-length : (f n : ℕ) (acc : Text) → length acc ≤ length (digits_from f n acc)
unfolding digits_from
digits_from-length zero n acc = omega arith
digits_from-length (suc f) n acc =
    ground (arith, digits_from-length f (n / 10) ((n % 10 + 48) ∷ acc))

show_nat-length : (n : ℕ) → 1 ≤ length (show_nat n)
unfolding show_nat digits_from
show_nat-length n = ground (arith, digits_from-length n (n / 10) ((n % 10 + 48) ∷ []))

-- Digits are no blanks, so that nothing of them is trimmed.
trim_start-Digits : (s : Text) → Digits s → trim_start s ≡ s
unfolding trim_start is_whitespace
trim_start-Digits [] d = refl
trim_start-Digits (c ∷ s) d = ground (arith, d.0)

reverse_aux-Digits : (s acc : Text) → Digits s → Digits acc → Digits (reverse_aux s acc)
reverse_aux-Digits [] acc d e = e
reverse_aux-Digits (c ∷ s) acc d e = reverse_aux-Digits s (c ∷ acc) d.1 (d.0, e)

trim-Digits : (s : Text) → Digits s → trim s ≡ s
unfolding trim
trim-Digits s d =
    let back = trim_start-Digits (reverse s) (reverse_aux-Digits s [] d tt) in
    rw (trim_start-Digits s d, back) (reverse-reverse s)

parse-Digits : (s : Text) → Digits s → 1 ≤ length s → parse_usize s ≡ parse_digits 0 s
unfolding parse_usize
parse-Digits [] d h = absurd (omega (arith, h))
parse-Digits (c ∷ s) d h = ground (arith, d.0)

-- A number that is written into the counter file is read back from it.
pub parse_usize-show_nat : (n : ℕ) → n ≤ u64_max → parse_usize (trim (show_nat n)) ≡ some n
unfolding show_nat parse_digits
parse_usize-show_nat n h =
    let digits = digits_from-Digits (suc n) n [] (omega arith) tt in
    rw (trim-Digits (show_nat n) digits) (
      parse-Digits (show_nat n) digits (show_nat-length n)
      ∙ parse-digits_from (suc n) n [] (omega arith) h)
