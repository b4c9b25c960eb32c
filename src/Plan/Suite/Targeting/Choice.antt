-- ===== src/Plan/Suite/Targeting/Choice.antt =====
-- What chooseTargetsUsingAttackSize of pkg/plan/suite/targeting.go chooses, and when it panics.
use attacknet.Base.{
  ℕ, zero, suc, ◌≤◌, ◌<◌, ◌≡◌, ◌↔◌, inl, inr, refl, List, [], ◌∷◌, length, take, arith, Crash, ok,
  crash, index_out_of_range, ok_of_bind, Outcome-cases,
}
use attacknet.Plan.Network.Nodes.{Node}
use attacknet.Plan.Suite.Kinds.{AttackSize, attack_one}
use attacknet.Plan.Suite.Targeting.{
  nodes_to_target, unless_unmet, first_targets, choose_targets_using_attack_size,
}
use attacknet.Plan.Suite.Targeting.Scope.{
  InShare, nodes_to_target-InShare, nodes_to_target-le, nodes_to_target-ne-crash,
}

first_targets-take :
    (k : ℕ) (nodes targets : List Node)
    → first_targets k nodes ≡ ok targets
    → (targets ≡ take k nodes) × (length targets ≡ k)
unfolding first_targets
first_targets-take zero nodes targets h = ground arith
first_targets-take (suc k) [] targets h = cc
first_targets-take (suc k) (node ∷ rest) targets h =
    let (more, e, f) = ok_of_bind (first_targets k rest) (λ more. ok (node ∷ more)) h in
    ground (arith, first_targets-take k rest more e)

first_targets_total :
    (k : ℕ) (nodes : List Node) → k ≤ length nodes → first_targets k nodes ≡ ok (take k nodes)
unfolding first_targets
first_targets_total zero nodes h = refl
first_targets_total (suc k) [] h = absurd (omega arith)
first_targets_total (suc k) (node ∷ rest) h = rw (first_targets_total k rest (omega arith))

-- The count behind a successful choice.
choice_count :
    (size : AttackSize) (n : ℕ) (nodes targets : List Node)
    → choose_targets_using_attack_size size n nodes ≡ ok targets
    → (k : ℕ) × (nodes_to_target size n (length nodes) ≡ ok k)
      × (0 < k)
      × (first_targets k nodes ≡ ok targets)
unfolding choose_targets_using_attack_size unless_unmet
choice_count size n nodes targets h = ground (arith, h)

-- In a network of fewer than 1024 nodes a choice that succeeds is a prefix of the targetable nodes and not
-- empty. It is one node for AttackOne, all of them for AttackAll, and else takes the documented share of
-- the network: below a third of it, from a third to less than a half, more than a half and less than two
-- thirds, or more than two thirds, where only in a network of at most three nodes it is the whole network.
pub choose_share :
    (size : AttackSize) (n : ℕ) (nodes targets : List Node)
    → 0 < n
    → n < 1024
    → choose_targets_using_attack_size size n nodes ≡ ok targets
    → (targets ≡ take (length targets) nodes)
      × (0 < length targets)
      × InShare size n (length nodes) (length targets)
choose_share size n nodes targets pos lt h =
    let (k, e, p, f) = choice_count size n nodes targets h in
    let (g, l) = first_targets-take k nodes targets f in
    rw l (g, p, nodes_to_target-InShare size n (length nodes) k pos lt e)

-- The copying loop runs past the end only for the single target of no node.
first_targets_crash :
    (size : AttackSize) (n k : ℕ) (nodes : List Node) (c : Crash)
    → nodes_to_target size n (length nodes) ≡ ok k
    → first_targets k nodes ≡ crash c
    → (size ≡ attack_one) × (nodes ≡ []) × (c ≡ index_out_of_range)
unfolding first_targets
first_targets_crash size n k [] c e h = elim (nodes_to_target-le size n 0 k e) [
  | inl le ↦ absurd (ground (arith, first_targets_total k [] le))
  | inr (one, s) ↦ (one, refl, ground arith)
]
first_targets_crash size n k (node ∷ rest) c e h =
    elim (nodes_to_target-le size n (length (node ∷ rest)) k e) [
      | inl le ↦ absurd (cc (first_targets_total k (node ∷ rest) le))
      | inr (one, s) ↦ absurd (ground arith)
    ]

-- In a network of fewer than 1024 nodes the choice panics exactly for the attack on one node when no
-- node is targetable, by an index out of range.
pub choose_crash :
    (size : AttackSize) (n : ℕ) (nodes : List Node) (c : Crash)
    → 0 < n
    → n < 1024
    → (choose_targets_using_attack_size size n nodes ≡ crash c)
      ↔ ((size ≡ attack_one) × (nodes ≡ []) × (c ≡ index_out_of_range))
unfolding choose_targets_using_attack_size unless_unmet
choose_crash size n nodes c pos lt = (to, from)
  where
    to :
        choose_targets_using_attack_size size n nodes ≡ crash c
        → (size ≡ attack_one) × (nodes ≡ []) × (c ≡ index_out_of_range)
    to h = elim (Outcome-cases (nodes_to_target size n (length nodes))) [
      | inl (k, e) ↦ first_targets_crash size n k nodes c e (ground (arith, e, h))
      | inr (inl (er, e)) ↦ absurd (ground (arith, e, h))
      | inr (inr (c', e)) ↦ absurd (nodes_to_target-ne-crash size n (length nodes) c' pos lt e)
    ]

    from :
        (size ≡ attack_one) × (nodes ≡ []) × (c ≡ index_out_of_range)
        → choose_targets_using_attack_size size n nodes ≡ crash c
    from (e, f, g) = rw (e, f, g) (unfold nodes_to_target in refl)
