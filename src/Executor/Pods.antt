-- ===== src/Executor/Pods.antt =====
-- The pods that GetPodsUnderTest of pkg/test_executor/executor.go returns.
use attacknet.Base.{
  ◌≡◌, refl, sym, ap, ◌∙◌, Bool, true, false, Option, none, some, List, [], ◌∷◌, ◌++◌, append_assoc,
  append-nil, any, Bool-cases, ◌⊎◌, inl, inr, if◌then◌else◌, arith, String, ok,
}
use attacknet.Base.Dict.{Dict, lookup, insert, lookup-insert}
use attacknet.Base.Text.{str_eq, eq_iff}
use attacknet.Chaos.Session.{PodUnderTest, FaultSession}
use attacknet.Executor.Collect.{
  TestExecutor, merge_pod, collect_pod, collect_pods, collect_sessions, get_pods_under_test,
}

abbrev is_seen : String → List String → Bool
is_seen name seen = any (λ s. str_eq s name) seen

-- The pods of the sessions in their order.
abbrev pub pods_of : List FaultSession → List PodUnderTest
pods_of [] = []
pods_of (f ∷ rest) = f.pods_under_test ++ pods_of rest

-- The first pod of each name that was not seen before.
abbrev pub firsts : List String → List PodUnderTest → List PodUnderTest
firsts seen [] = []
firsts seen (pod ∷ rest) =
    let skip = firsts seen rest in
    let more = firsts (pod.name ∷ seen) rest in if is_seen pod.name seen then skip else pod ∷ more

abbrev is_there : Option PodUnderTest → Bool
is_there none = false
is_there (some _) = true

-- The map knows the names that were seen.
abbrev Knows : Dict PodUnderTest → List String → Type 0
Knows pods seen = (name : String) → is_there (lookup name pods) ≡ is_seen name seen

Knows-insert :
    (pods : Dict PodUnderTest) (seen : List String) (pod : PodUnderTest)
    → Knows pods seen
    → Knows (insert pod.name pod pods) (pod.name ∷ seen)
Knows-insert pods seen pod h name = ground (arith, lookup-insert pod.name name pod pods, h name)

Knows-again :
    (pods : Dict PodUnderTest) (seen : List String) (key : String) (val : PodUnderTest)
    → Knows pods seen
    → is_seen key seen ≡ true
    → Knows (insert key val pods) seen
Knows-again pods seen key val h s name = elim (Bool-cases (str_eq key name)) [
  | inl e ↦
      let same : is_seen name seen ≡ true =
        ap (λ n. is_seen n seen) (sym ((eq_iff key name).0 e)) ∙ s in
      rw (lookup-insert key name val pods, e) (sym same)
  | inr e ↦ rw (lookup-insert key name val pods, e) (h name)
]

Option-cases : (o : Option PodUnderTest) → (o ≡ none) ⊎ ((val : PodUnderTest) × (o ≡ some val))
Option-cases none = inl refl
Option-cases (some val) = inr (val, refl)

collect_lem :
    (ps : List PodUnderTest) (seen : List String) (pods : Dict PodUnderTest)
    (ret : List PodUnderTest)
    → Knows pods seen
    → (collect_pods ps (pods, ret)).1 ≡ ret ++ firsts seen ps
unfolding collect_pods collect_pod
collect_lem [] seen pods ret h = sym (append-nil ret)
collect_lem (pod ∷ rest) seen pods ret h = elim (Option-cases (lookup pod.name pods)) [
  | inl e ↦
      let s : is_seen pod.name seen ≡ false = sym (h pod.name) ∙ ap is_there e in
      rw (collect_pods, collect_pod, firsts, e, s)
        (collect_lem rest (pod.name ∷ seen) (insert pod.name pod pods) (ret ++ pod ∷ [])
            (Knows-insert pods seen pod h)
          ∙ append_assoc ret (pod ∷ []) (firsts (pod.name ∷ seen) rest))
  | inr (val, e) ↦
      let s : is_seen pod.name seen ≡ true = sym (h pod.name) ∙ ap is_there e in
      rw (collect_pods, collect_pod, firsts, e, s)
        (collect_lem rest seen (insert pod.name (merge_pod pod val) pods) ret
          (Knows-again pods seen pod.name (merge_pod pod val) h s))
]

collect_pods-append :
    (xs ys : List PodUnderTest) (state : Dict PodUnderTest × List PodUnderTest)
    → collect_pods (xs ++ ys) state ≡ collect_pods ys (collect_pods xs state)
unfolding collect_pods
collect_pods-append [] ys state = refl
collect_pods-append (x ∷ xs) ys state = collect_pods-append xs ys (collect_pod x state)

collect_sessions_lem :
    (fs : List FaultSession) (state : Dict PodUnderTest × List PodUnderTest)
    → collect_sessions fs state ≡ collect_pods (pods_of fs) state
unfolding collect_sessions collect_pods
collect_sessions_lem [] state = refl
collect_sessions_lem (f ∷ rest) state =
    collect_sessions_lem rest (collect_pods f.pods_under_test state)
    ∙ sym (collect_pods-append f.pods_under_test (pods_of rest) state)

-- After the plan has run, the pods under test are the first ones of each name in the sessions' order,
-- as the first session saw them: what a later session says of them is not in the result.
pub get_pods_under_test_lem :
    (te : TestExecutor)
    → te.plan_completed ≡ true
    → get_pods_under_test te ≡ ok (firsts [] (pods_of te.fault_sessions))
unfolding get_pods_under_test lookup
get_pods_under_test_lem te e =
    simp (get_pods_under_test, e)
      (ap (λ (s : Dict PodUnderTest × List PodUnderTest). ok (s.1))
          (collect_sessions_lem te.fault_sessions ([], []))
        ∙ ap ok (collect_lem (pods_of te.fault_sessions) [] [] [] (λ name. refl)))
