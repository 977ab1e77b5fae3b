-- ===== src/Lexer/Case.antt =====
-- Words that are the same, ignoring case.
use rediskrazy.Base.{
  ℕ, ◌≡◌, sym, ◌∙◌, true, false, List, bytes_eq, bytes_eq_iff, Bool-cases, inl, inr,
}
use rediskrazy.Lexer.{equal_ignoring_case, lower_all}

-- Of two different words at most one is the same as a third.
pub other_word :
    (s t u : List ℕ)
    → equal_ignoring_case s t ≡ true
    → equal_ignoring_case s u ≡ false
    → equal_ignoring_case u t ≡ false
unfolding equal_ignoring_case
other_word s t u y n = elim (Bool-cases (bytes_eq (lower_all u) (lower_all t))) [
  | inl y' ↦
      let same : lower_all s ≡ lower_all u =
        (bytes_eq_iff (lower_all s) (lower_all t)).0 y
        ∙ sym ((bytes_eq_iff (lower_all u) (lower_all t)).0 y') in
      absurd (differ (sym n ∙ (bytes_eq_iff (lower_all s) (lower_all u)).1 same))
  | inr n' ↦ n'
]
  where
    differ : false ≡ true → ⊥
    differ e = cc
