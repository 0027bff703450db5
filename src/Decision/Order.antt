-- ===== src/Decision/Order.antt =====
-- src/decision.rs: the entry that `max_by` keeps among the counts.
use long_task_orchestration.Prelude.{
  ℕ, ◌<◌, ◌≡◌, ◌⊎◌, inl, inr, refl, true, false, List, [], ◌∷◌, arith, Bool-cases,
}
use long_task_orchestration.Prelude.Text.{Text, text_ltb}
use long_task_orchestration.Prelude.TextOrder.{text_ltb_irrefl, text_ltb_asymm, text_geb_trans}
use mathlib.Core.List.{Memᴰ}
use long_task_orchestration.Decision.Count.{stays_ahead, max_from}

-- The entry is not ahead of the other: fewer votes, or as many and no smaller key.
abbrev pub Behind : Text × ℕ → Text × ℕ → Type 0
Behind (j, m) (k, n) = (m < n) ⊎ ((m ≡ n) × (text_ltb j k ≡ false))

Behind-refl : (e : Text × ℕ) → Behind e e
Behind-refl (k, n) = inr (refl, text_ltb_irrefl k)

Behind-trans : (d e f : Text × ℕ) → Behind d e → Behind e f → Behind d f
Behind-trans (i, l) (j, m) (k, n) h g = ground (arith, text_geb_trans i j k)

stays_ahead-Behind : (d e : Text × ℕ) → stays_ahead d e ≡ true → Behind e d
unfolding text_ltb
stays_ahead-Behind (j, m) (k, n) h = ground (arith, text_ltb_asymm j k)

not_ahead-Behind : (d e : Text × ℕ) → stays_ahead d e ≡ false → Behind d e
unfolding text_ltb
not_ahead-Behind (j, m) (k, n) h = ground arith

keep_best :
    (best entry : Text × ℕ) (entries : List (Text × ℕ))
    → stays_ahead best entry ≡ true
    → max_from best (entry ∷ entries) ≡ max_from best entries
unfolding max_from
keep_best best entry entries h = rw h refl

keep_next :
    (best entry : Text × ℕ) (entries : List (Text × ℕ))
    → stays_ahead best entry ≡ false
    → max_from best (entry ∷ entries) ≡ max_from entry entries
unfolding max_from
keep_next best entry entries h = rw h refl

-- What `max_from` keeps is not behind: no entry is ahead of it.
pub max_from-Behind :
    (best : Text × ℕ) (entries : List (Text × ℕ)) (e : Text × ℕ)
    → Memᴰ e (best ∷ entries)
    → Behind e (max_from best entries)
unfolding max_from
max_from-Behind best [] e (Memᴰ.head p) = rw p (Behind-refl best)
max_from-Behind best [] e (Memᴰ.tail m) = elim m [ ]
max_from-Behind best (entry ∷ entries) e m = elim (Bool-cases (stays_ahead best entry)) [
  | inl ahead ↦
      let rest = max_from-Behind best entries in
      rw (keep_best best entry entries ahead) (
        pass best entry e _ m (rest best (Memᴰ.head refl))
          (Behind-trans entry best _ (stays_ahead-Behind best entry ahead)
            (rest best (Memᴰ.head refl)))
          (λ n. rest e (Memᴰ.tail n)))
  | inr behind ↦
      let rest = max_from-Behind entry entries in
      rw (keep_next best entry entries behind) (
        pass best entry e _ m
          (Behind-trans best entry _ (not_ahead-Behind best entry behind)
            (rest entry (Memᴰ.head refl)))
          (rest entry (Memᴰ.head refl)) (λ n. rest e (Memᴰ.tail n)))
]
  where
    pass :
        (best entry e r : Text × ℕ) {entries : List (Text × ℕ)}
        → Memᴰ e (best ∷ entry ∷ entries)
        → Behind best r
        → Behind entry r
        → (Memᴰ e entries → Behind e r)
        → Behind e r
    pass best entry e r (Memᴰ.head p) b c f = rw p b
    pass best entry e r (Memᴰ.tail (Memᴰ.head p)) b c f = rw p c
    pass best entry e r (Memᴰ.tail (Memᴰ.tail m)) b c f = f m

pub max_from-Memᴰ :
    (best : Text × ℕ) (entries : List (Text × ℕ)) → Memᴰ (max_from best entries) (best ∷ entries)
unfolding max_from
max_from-Memᴰ best [] = Memᴰ.head refl
max_from-Memᴰ best (entry ∷ entries) = elim (Bool-cases (stays_ahead best entry)) [
  | inl ahead ↦ rw (keep_best best entry entries ahead) (skip_second (max_from-Memᴰ best entries))
  | inr behind ↦ rw (keep_next best entry entries behind) (Memᴰ.tail (max_from-Memᴰ entry entries))
]
  where
    skip_second :
        {e best entry : Text × ℕ} {entries : List (Text × ℕ)}
        → Memᴰ e (best ∷ entries)
        → Memᴰ e (best ∷ entry ∷ entries)
    skip_second (Memᴰ.head p) = Memᴰ.head p
    skip_second (Memᴰ.tail m) = Memᴰ.tail (Memᴰ.tail m)
