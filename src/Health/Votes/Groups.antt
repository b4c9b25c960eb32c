-- ===== src/Health/Votes/Groups.antt =====
-- The maps of votes in pkg/health/ethereum/consensus.go.
use attacknet.Base.{
  ℕ, suc, ◌+◌, ◌≤◌, ◌≡◌, ◌↔◌, inl, inr, refl, sym, ap, ◌∙◌, subst, Bool, true, false, List, [], ◌∷◌,
  ◌++◌, length, All, All-append, All-imply, Bool-cases, if◌then◌else◌, arith,
}
use attacknet.Health.Votes.{ClientForkChoice, Groups, add_vote, group_votes}

-- How many votes pass a test.
abbrev pub number_of : (ClientForkChoice → Bool) → List ClientForkChoice → ℕ
number_of p [] = 0
number_of p (v ∷ vs) = let n = number_of p vs in if p v then suc n else n

pub number_of-append :
    (p : ClientForkChoice → Bool) (xs ys : List ClientForkChoice)
    → number_of p (xs ++ ys) ≡ number_of p xs + number_of p ys
number_of-append p [] ys = omega arith
number_of-append p (x ∷ xs) ys = ground (arith, number_of-append p xs ys)

module _ {K : Type 0} where
  abbrev pub all_votes : Groups K → List ClientForkChoice
  all_votes [] = []
  all_votes ((k, votes) ∷ rest) = votes ++ all_votes rest

  number_of-add_vote :
      (p : ClientForkChoice → Bool) (eq : K → K → Bool) (key : K) (vote : ClientForkChoice)
      (groups : Groups K)
      → number_of p (all_votes (add_vote eq key vote groups))
        ≡ number_of p (vote ∷ []) + number_of p (all_votes groups)
  unfolding add_vote
  number_of-add_vote p eq key vote [] = omega arith
  number_of-add_vote p eq key vote ((k, votes) ∷ rest) = elim (Bool-cases (eq k key)) [
    | inl e ↦
        rw (add_vote, e)
          (omega (
            arith,
            number_of-append p (votes ++ vote ∷ []) (all_votes rest),
            number_of-append p votes (vote ∷ []),
            number_of-append p votes (all_votes rest),
          ))
    | inr e ↦
        rw (add_vote, e)
          (omega (
            arith,
            number_of-append p votes (all_votes (add_vote eq key vote rest)),
            number_of-append p votes (all_votes rest),
            number_of-add_vote p eq key vote rest,
          ))
  ]

  pub number_of-group_votes :
      (p : ClientForkChoice → Bool) (eq : K → K → Bool) (key_of : ClientForkChoice → K)
      (nodes : List ClientForkChoice) (groups : Groups K)
      → number_of p (all_votes (group_votes eq key_of nodes groups))
        ≡ number_of p nodes + number_of p (all_votes groups)
  unfolding group_votes
  number_of-group_votes p eq key_of [] groups = omega arith
  number_of-group_votes p eq key_of (v ∷ rest) groups =
      let one = number_of-add_vote p eq (key_of v) v groups in
      let ih = number_of-group_votes p eq key_of rest (add_vote eq (key_of v) v groups) in
      ground (arith, one, ih)

pub number_of_le :
    (p : ClientForkChoice → Bool) (xs : List ClientForkChoice) → number_of p xs ≤ length xs
number_of_le p [] = omega arith
number_of_le p (x ∷ xs) = ground (arith, number_of_le p xs)

number_of_none :
    (p : ClientForkChoice → Bool) (xs : List ClientForkChoice)
    → All (λ v. p v ≡ false) xs
    → number_of p xs ≡ 0
number_of_none p [] h = refl
number_of_none p (x ∷ xs) h = ground (arith, number_of_none p xs h.1, h.0)

module _ {K : Type 0} (eq : K → K → Bool) (key_of : ClientForkChoice → K)
    (lawful : (a b : K) → (eq a b ≡ true) ↔ (a ≡ b)) where
  -- The votes of a group are for its key.
  abbrev pub IsGroup : K × List ClientForkChoice → Type 0
  IsGroup (k, votes) = All (λ v. key_of v ≡ k) votes

  -- No group has the key.
  abbrev pub Misses : K → Groups K → Type 0
  Misses k groups = All (λ g. eq k g.0 ≡ false) groups

  abbrev pub IsDistinct : Groups K → Type 0
  IsDistinct [] = Unit
  IsDistinct ((k, _) ∷ rest) = Misses k rest × IsDistinct rest

  eq_comm : (a b : K) → eq a b ≡ false → eq b a ≡ false
  eq_comm a b e = elim (Bool-cases (eq b a)) [
    | inl f ↦ absurd (cc (e, (lawful a b).1 (sym ((lawful b a).0 f))))
    | inr f ↦ f
  ]

  IsGroup-add_vote :
      (vote : ClientForkChoice) (groups : Groups K)
      → All IsGroup groups
      → All IsGroup (add_vote eq (key_of vote) vote groups)
  unfolding add_vote
  IsGroup-add_vote vote [] h = ((refl, tt), tt)
  IsGroup-add_vote vote ((k, votes) ∷ rest) h = elim (Bool-cases (eq k (key_of vote))) [
    | inl e ↦
        rw (add_vote, e)
          (
            All-append (λ v. key_of v ≡ k) votes (vote ∷ []) h.0
                (sym ((lawful k (key_of vote)).0 e), tt),
            h.1,
          )
    | inr e ↦ rw (add_vote, e) (h.0, IsGroup-add_vote vote rest h.1)
  ]

  Misses-add_vote :
      (k : K) (vote : ClientForkChoice) (groups : Groups K)
      → eq k (key_of vote) ≡ false
      → Misses k groups
      → Misses k (add_vote eq (key_of vote) vote groups)
  unfolding add_vote
  Misses-add_vote k vote [] e h = (e, tt)
  Misses-add_vote k vote ((k', votes) ∷ rest) e h = elim (Bool-cases (eq k' (key_of vote))) [
    | inl f ↦ rw (add_vote, f) h
    | inr f ↦ rw (add_vote, f) (h.0, Misses-add_vote k vote rest e h.1)
  ]

  IsDistinct-add_vote :
      (vote : ClientForkChoice) (groups : Groups K)
      → IsDistinct groups
      → IsDistinct (add_vote eq (key_of vote) vote groups)
  unfolding add_vote
  IsDistinct-add_vote vote [] h = (tt, tt)
  IsDistinct-add_vote vote ((k, votes) ∷ rest) h = elim (Bool-cases (eq k (key_of vote))) [
    | inl e ↦ rw (add_vote, e) h
    | inr e ↦
        rw (add_vote, e) (Misses-add_vote k vote rest e h.0, IsDistinct-add_vote vote rest h.1)
  ]

  pub group_votes_lem :
      (nodes : List ClientForkChoice) (groups : Groups K)
      → All IsGroup groups
      → IsDistinct groups
      → All IsGroup (group_votes eq key_of nodes groups)
        × IsDistinct (group_votes eq key_of nodes groups)
  unfolding group_votes
  group_votes_lem [] groups g d = (g, d)
  group_votes_lem (v ∷ rest) groups g d =
      group_votes_lem rest (add_vote eq (key_of v) v groups) (IsGroup-add_vote v groups g)
        (IsDistinct-add_vote v groups d)

  other_group :
      (k k' : K) (votes : List ClientForkChoice)
      → eq k' k ≡ false
      → All (λ v. key_of v ≡ k') votes
      → number_of (λ v. eq (key_of v) k) votes ≡ 0
  other_group k k' votes e h =
      number_of_none (λ v. eq (key_of v) k) votes
        (All-imply (λ v. key_of v ≡ k') (λ v. eq (key_of v) k ≡ false)
          (λ v f. ap (λ x. eq x k) f ∙ e) votes h)

  missed :
      (k : K) (groups : Groups K)
      → Misses k groups
      → All IsGroup groups
      → number_of (λ v. eq (key_of v) k) (all_votes groups) ≡ 0
  missed k [] m g = refl
  missed k ((k', votes) ∷ rest) m g = omega (
    arith,
    number_of-append (λ v. eq (key_of v) k) votes (all_votes rest),
    other_group k k' votes (eq_comm k k' m.0) g.0,
    missed k rest m.1 g.1,
  )

  -- No key has more votes than the largest group.
  pub bounded :
      (k : K) (n : ℕ) (groups : Groups K)
      → All IsGroup groups
      → IsDistinct groups
      → All (λ g. length g.1 ≤ n) groups
      → number_of (λ v. eq (key_of v) k) (all_votes groups) ≤ n
  bounded k n [] g d h = omega arith
  bounded k n ((k', votes) ∷ rest) g d h =
      let p = λ (v : ClientForkChoice). eq (key_of v) k in
      let both = number_of-append p votes (all_votes rest) in
      elim (Bool-cases (eq k' k)) [
        | inl e ↦
            let m : Misses k rest = subst (λ x. Misses x rest) ((lawful k' k).0 e) d.0 in
            omega (arith, both, missed k rest m g.1, number_of_le p votes, h.0)
        | inr e ↦ omega (arith, both, other_group k k' votes e g.0, bounded k n rest g.1 d.1 h.1)
      ]
