-- ===== src/Plan/Suite/Targeting/Scope.antt =====
-- How many nodes an attack size takes: the shares that pkg/plan/suite/types.go documents, over the
-- float32 arithmetic of pkg/plan/suite/targeting.go.
use attacknet.Base.{
  ℕ, zero, suc, ◌*◌, ◌^◌, ◌≤◌, ◌<◌, ◌≡◌, ◌≢◌, refl, sym, ap, ◌∙◌, ok-injective, Bool-cases, ◌⊎◌,
  inl, inr, Bool, true, false, ◌&&◌, ◌||◌, arith, ltb, leb, ◌==◌, Outcome, Crash, ok, crash, ◌>>=◌,
}
use attacknet.Golang.Float
use attacknet.Golang.Float.{float32, constant}
use attacknet.Plan.Suite.Kinds.{
  AttackSize, attack_one, attack_all, attack_minority, attack_superminority, attack_majority,
  attack_supermajority, other_size,
}
use attacknet.Plan.Suite.Targeting.{percent_of, share, bump_if, unless_unmet, nodes_to_target}

-- The `k` of `t` targetable nodes in a network of `n` nodes: one, all of them, or the documented share of
-- the network: below a third, from a third to a half, between a half and two thirds, above two thirds.
-- The last one leaves a node out, except that it takes the whole of a network of up to three nodes.
-- Another size takes none.
abbrev pub InShare : AttackSize → (n t k : ℕ) → Type 0
InShare attack_one n t k = k ≡ 1
InShare attack_all n t k = k ≡ t
InShare attack_minority n t k = 3 * k < n
InShare attack_superminority n t k = (n ≤ 3 * k) × (2 * k < n)
InShare attack_majority n t k = (n < 2 * k) × (3 * k < 2 * n)
InShare attack_supermajority n t k = (2 * n < 3 * k) × ((k < n) ⊎ ((k ≡ n) × (n ≤ 3)))
InShare (other_size _) n t k = k ≡ 0

in_share : AttackSize → ℕ → ℕ → Bool
in_share attack_minority n k = ltb (3 * k) n
in_share attack_superminority n k = leb n (3 * k) && ltb (2 * k) n
in_share attack_majority n k = ltb n (2 * k) && ltb (3 * k) (2 * n)
in_share attack_supermajority n k = ltb (2 * n) (3 * k) && (ltb k n || (k == n && leb n 3))
in_share _ n k = false

in_share-InShare : (size : AttackSize) (n t k : ℕ) → in_share size n k ≡ true → InShare size n t k
unfolding in_share
in_share-InShare attack_minority n t k h = ground arith
in_share-InShare attack_superminority n t k h = ground arith
in_share-InShare attack_majority n t k h = ground arith
in_share-InShare attack_supermajority n t k h = elim (Bool-cases (ltb k n)) [
  | inl l ↦ (ground arith, inl (ground arith))
  | inr l ↦ (ground arith, inr (ground arith, ground arith))
]
in_share-InShare attack_one n t k h = cc
in_share-InShare attack_all n t k h = cc
in_share-InShare (other_size _) n t k h = cc

-- The number that the share asks for, and whether it is out of the share's range, before the
-- targetable nodes are looked at.
wanted : AttackSize → ℕ → Outcome (ℕ × Bool)
wanted attack_minority n = do k ← percent_of 32 n; ok (k, false)
wanted attack_superminority n = do
  k₀ ← percent_of 34 n
  let k = bump_if (Float.lt (share k₀ n) (constant float32 333333333 (10 ^ 9))) k₀
  ok (k, Float.le (constant float32 50 100) (share k n))
wanted attack_majority n = do
  k₀ ← percent_of 51 n
  let k = bump_if (Float.le (share k₀ n) (constant float32 50 100)) k₀
  ok (k, Float.le (constant float32 66 100) (share k n))
wanted attack_supermajority n = do
  k₀ ← percent_of 67 n
  let k = bump_if (Float.le (share k₀ n) (constant float32 666666666 (10 ^ 9))) k₀
  ok (k, Float.lt (constant float32 1 1) (share k n))
wanted _ n = ok (0, true)

-- Does the test hold of every network size under `bound`?
holds_under : (test : ℕ → Bool) (bound : ℕ) → Bool
holds_under test zero = true
holds_under test (suc last) = test last && holds_under test last

holds_under_at :
    (test : ℕ → Bool) (bound : ℕ) (size : ℕ)
    → size < bound
    → holds_under test bound ≡ true
    → test size ≡ true
unfolding holds_under
holds_under_at test zero size small e = absurd (omega arith)
holds_under_at test (suc last) size small e = ground (arith, holds_under_at test last size)

fits : AttackSize → ℕ → Outcome (ℕ × Bool) → Bool
fits size n (ok (k, over)) = over || in_share size n k
fits size n _ = false

-- The arithmetic, evaluated at every size of a network below the bound.
table : AttackSize → Bool
unfolding holds_under fits wanted in_share percent_of share Float.lt Float.le Float.constant
table size = holds_under (λ n. n == 0 || fits size n (wanted size n)) 1024

minority_table : table attack_minority ≡ true
unfolding table
minority_table = refl

superminority_table : table attack_superminority ≡ true
unfolding table
superminority_table = refl

majority_table : table attack_majority ≡ true
unfolding table
majority_table = refl

supermajority_table : table attack_supermajority ≡ true
unfolding table
supermajority_table = refl

-- The sizes that do not depend on the network ask for no share of it.
tables : (size : AttackSize) → table size ≡ true ⊎ ((n : ℕ) → wanted size n ≡ ok (0, true))
unfolding wanted
tables attack_minority = inl minority_table
tables attack_superminority = inl superminority_table
tables attack_majority = inl majority_table
tables attack_supermajority = inl supermajority_table
tables attack_one = inr (λ n. refl)
tables attack_all = inr (λ n. refl)
tables (other_size _) = inr (λ n. refl)

or_right : (a b : Bool) → a ≡ false → (a || b) ≡ true → b ≡ true
or_right true b e h = cc
or_right false b e h = h

table-fits :
    (size : AttackSize) (n : ℕ)
    → table size ≡ true
    → 0 < n
    → n < 1024
    → fits size n (wanted size n) ≡ true
unfolding table
table-fits size n t pos lt =
    or_right (n == 0) (fits size n (wanted size n)) (ground arith)
      (holds_under_at (λ n. n == 0 || fits size n (wanted size n)) 1024 n lt t)

wanted-InShare :
    (size : AttackSize) (n t k : ℕ)
    → 0 < n
    → n < 1024
    → wanted size n ≡ ok (k, false)
    → InShare size n t k
unfolding fits
wanted-InShare size n t k pos lt e = elim (tables size) [
  | inl holds ↦ in_share-InShare size n t k (rw e at (table-fits size n holds pos lt))
  | inr h ↦ let bad : true ≡ false = ap (λ (p : ℕ × Bool). p.1) (ok-injective (sym (h n) ∙ e)) in cc
]

-- What the switch gives is what the share asks for, if there are as many targetable nodes.
nodes_to_target-wanted :
    (size : AttackSize) (n t k : ℕ)
    → nodes_to_target size n t ≡ ok k
    → (InShare size n t k) ⊎ (wanted size n ≡ ok (k, false))
unfolding nodes_to_target wanted unless_unmet
nodes_to_target-wanted attack_one n t k h = inl (ground arith)
nodes_to_target-wanted attack_all n t k h = inl (ground arith)
nodes_to_target-wanted attack_minority n t k h = inr (ground arith)
nodes_to_target-wanted attack_superminority n t k h = inr (ground arith)
nodes_to_target-wanted attack_majority n t k h = inr (ground arith)
nodes_to_target-wanted attack_supermajority n t k h = inr (ground arith)
nodes_to_target-wanted (other_size _) n t k h = inl (ground arith)

pub nodes_to_target-InShare :
    (size : AttackSize) (n t k : ℕ)
    → 0 < n
    → n < 1024
    → nodes_to_target size n t ≡ ok k
    → InShare size n t k
nodes_to_target-InShare size n t k pos lt h = elim (nodes_to_target-wanted size n t k h) [
  | inl s ↦ s
  | inr e ↦ wanted-InShare size n t k pos lt e
]

-- Only the single target is taken without a look at how many nodes there are.
pub nodes_to_target-le :
    (size : AttackSize) (n t k : ℕ)
    → nodes_to_target size n t ≡ ok k
    → (k ≤ t) ⊎ ((size ≡ attack_one) × (k ≡ 1))
unfolding nodes_to_target unless_unmet
nodes_to_target-le attack_one n t k h = inr (refl, ground arith)
nodes_to_target-le attack_all n t k h = inl (ground arith)
nodes_to_target-le attack_minority n t k h = inl (ground arith)
nodes_to_target-le attack_superminority n t k h = inl (ground arith)
nodes_to_target-le attack_majority n t k h = inl (ground arith)
nodes_to_target-le attack_supermajority n t k h = inl (ground arith)
nodes_to_target-le (other_size _) n t k h = inl (ground arith)

-- A switch that crashes does so in the arithmetic.
nodes_to_target_crash :
    (size : AttackSize) (n t : ℕ) (c : Crash)
    → nodes_to_target size n t ≡ crash c
    → (wanted size n ≡ crash c) × (table size ≡ true)
unfolding nodes_to_target wanted unless_unmet
nodes_to_target_crash attack_one n t c h = cc
nodes_to_target_crash attack_all n t c h = cc
nodes_to_target_crash attack_minority n t c h = (ground arith, minority_table)
nodes_to_target_crash attack_superminority n t c h = (ground arith, superminority_table)
nodes_to_target_crash attack_majority n t c h = (ground arith, majority_table)
nodes_to_target_crash attack_supermajority n t c h = (ground arith, supermajority_table)
nodes_to_target_crash (other_size _) n t c h = cc

pub nodes_to_target-ne-crash :
    (size : AttackSize) (n t : ℕ) (c : Crash)
    → 0 < n
    → n < 1024
    → nodes_to_target size n t ≢ crash c
unfolding fits
nodes_to_target-ne-crash size n t c pos lt h =
    let (e, t') = nodes_to_target_crash size n t c h in cc (rw e at (table-fits size n t' pos lt))
