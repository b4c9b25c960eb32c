-- ===== src/Health/Votes/Tallies.antt =====
-- What the loop over the groups of votes in determineForkConsensus of
-- pkg/health/ethereum/consensus.go leaves in its tally.
use attacknet.Base.{
  ℕ, ◌+◌, ◌<◌, ◌≤◌, ◌≡◌, inl, inr, refl, sym, ap, ◌∙◌, subst, Bool, true, List, [], ◌∷◌, ◌++◌,
  length, All, ltb, Bool-cases, if◌then◌else◌, arith,
}
use mathlib.Core.List.{Permᴰ}
use attacknet.Health.Votes.{ClientForkChoice, Groups, Tally, choose}
use attacknet.Health.Votes.Groups.{number_of, number_of_le, number_of-append, all_votes}

abbrev guarded : (keep : ℕ → Bool) (t : Tally) → List ClientForkChoice
guarded keep t = if keep t.votes then t.others ++ t.winner else t.others

-- A beaten winner joins the others, or is empty.
guarded_lem :
    (p : ClientForkChoice → Bool) (keep : ℕ → Bool) (t : Tally)
    → ((n : ℕ) → 0 < n → keep n ≡ true)
    → t.votes ≡ length t.winner
    → number_of p (guarded keep t) ≡ number_of p t.others + number_of p t.winner
guarded_lem p keep t g e = elim (Bool-cases (keep t.votes)) [
  | inl f ↦ rw (guarded, f) (number_of-append p t.others t.winner)
  | inr f ↦
      let none_yet : t.votes ≡ 0 = elim (Bool-cases (ltb 0 t.votes)) [
        | inl h ↦ absurd (cc (g t.votes (ground arith), f))
        | inr h ↦ ground arith
      ] in
      rw (guarded, f) (omega (arith, number_of_le p t.winner, none_yet, e))
]

-- The tally after a group that wins, and after one that does not.
abbrev won : (ℕ → Bool) → Tally → List ClientForkChoice → Tally
won keep t votes = record { votes = length votes; winner = votes; others = guarded keep t }

abbrev lost : Tally → List ClientForkChoice → Tally
lost t votes = record t { others = t.others ++ votes }

-- The new winner has no fewer votes than the old one and than each of the groups.
abbrev IsWon : {K : Type 0} → Groups K → Tally → Tally → Type 0
IsWon groups t t' =
    (t'.votes ≡ length t'.winner) × (t.votes ≤ t'.votes) × All (λ g. length g.1 ≤ t'.votes) groups

module _ {K : Type 0} (keep : ℕ → Bool) (guard : (n : ℕ) → 0 < n → keep n ≡ true) where
  pub winner_lem :
      (groups : Groups K) (t : Tally)
      → t.votes ≡ length t.winner
      → IsWon groups t (choose keep groups t)
  unfolding choose
  winner_lem [] t e = (e, omega arith, tt)
  winner_lem ((k, votes) ∷ rest) t e = elim (Bool-cases (ltb t.votes (length votes))) [
    | inl f ↦
        let (a, b, c) = winner_lem rest (won keep t votes) refl in
        let g : choose keep ((k, votes) ∷ rest) t ≡ choose keep rest (won keep t votes) =
          rw (choose, f) refl in
        subst (IsWon ((k, votes) ∷ rest) t) (sym g) (a, ground (arith, b), (b, c))
    | inr f ↦
        let (a, b, c) = winner_lem rest (lost t votes) e in
        let g : choose keep ((k, votes) ∷ rest) t ≡ choose keep rest (lost t votes) =
          rw (choose, f) refl in
        subst (IsWon ((k, votes) ∷ rest) t) (sym g) (a, b, (ground (arith, b), c))
  ]

  pub partition_lem :
      (p : ClientForkChoice → Bool) (groups : Groups K) (t : Tally)
      → t.votes ≡ length t.winner
      → let t' = choose keep groups t in
        number_of p t'.winner + number_of p t'.others
        ≡ number_of p t.winner + number_of p t.others + number_of p (all_votes groups)
  unfolding choose
  partition_lem p [] t e = omega arith
  partition_lem p ((k, votes) ∷ rest) t e = elim (Bool-cases (ltb t.votes (length votes))) [
    | inl f ↦
        rw (choose, f)
          (omega (
            arith,
            partition_lem p rest (won keep t votes) refl,
            guarded_lem p keep t guard e,
            number_of-append p votes (all_votes rest),
          ))
    | inr f ↦
        rw (choose, f)
          (omega (
            arith,
            partition_lem p rest (lost t votes) e,
            number_of-append p t.others votes,
            number_of-append p votes (all_votes rest),
          ))
  ]

  pub property_lem :
      (P : List ClientForkChoice → Type 0) (groups : Groups K) (t : Tally)
      → P t.winner
      → All (λ g. P g.1) groups
      → P (choose keep groups t).winner
  unfolding choose
  property_lem P [] t h a = h
  property_lem P ((k, votes) ∷ rest) t h a = elim (Bool-cases (ltb t.votes (length votes))) [
    | inl f ↦ rw (choose, f) (property_lem P rest _ a.0 a.1)
    | inr f ↦ rw (choose, f) (property_lem P rest _ h a.1)
  ]

-- What walking a map in some order keeps.
module _ {K : Type 0} where
  pub number_of-Permᴰ :
      (p : ClientForkChoice → Bool) {gs hs : Groups K}
      → Permᴰ gs hs
      → number_of p (all_votes gs) ≡ number_of p (all_votes hs)
  number_of-Permᴰ p Permᴰ.nil = refl
  number_of-Permᴰ p (Permᴰ.cons {a} {b} {l₁} {l₂} e q) = omega (
    arith,
    number_of-append p a.1 (all_votes l₁),
    number_of-append p b.1 (all_votes l₂),
    ap (λ (g : K × List ClientForkChoice). number_of p g.1) e,
    number_of-Permᴰ p q,
  )
  number_of-Permᴰ p (Permᴰ.swap {a} {b} {a'} {b'} {l} e e') = omega (
    arith,
    number_of-append p a.1 (b.1 ++ all_votes l),
    number_of-append p b.1 (all_votes l),
    number_of-append p a'.1 (b'.1 ++ all_votes l),
    number_of-append p b'.1 (all_votes l),
    ap (λ (g : K × List ClientForkChoice). number_of p g.1) e,
    ap (λ (g : K × List ClientForkChoice). number_of p g.1) e',
  )
  number_of-Permᴰ p (Permᴰ.trans q r) = number_of-Permᴰ p q ∙ number_of-Permᴰ p r

  pub All-Permᴰ :
      (P : K × List ClientForkChoice → Type 0) {gs hs : Groups K}
      → Permᴰ gs hs
      → All P gs
      → All P hs
  All-Permᴰ P Permᴰ.nil h = tt
  All-Permᴰ P (Permᴰ.cons e q) h = (subst P e h.0, All-Permᴰ P q h.1)
  All-Permᴰ P (Permᴰ.swap e e') h = (subst P e' h.1.0, (subst P e h.0, h.1.1))
  All-Permᴰ P (Permᴰ.trans q r) h = All-Permᴰ P r (All-Permᴰ P q h)

pub no_groups : {K : Type 0} (groups : Groups K) → Permᴰ [] groups → groups ≡ []
no_groups [] q = refl
no_groups (g ∷ rest) q = absurd ((All-Permᴰ (λ _. ⊥) q tt).0)
