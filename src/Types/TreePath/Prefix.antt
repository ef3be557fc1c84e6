-- ===== src/Types/TreePath/Prefix.antt =====
-- About IsAncestorOf and Parent of agent/types/node.go: strict prefixes.
use graph_agent_dev_kit.Common.{
  ℕ, true, false, Bool-cases, inl, inr, [], ◌∷◌, ◌++◌, length, length-append, leb, nat_eqb, ◌≡◌,
  refl, ap, ap₂, ◌∙◌, arith, eq_of_nat_test, ◌↔◌,
}
use graph_agent_dev_kit.Types.Node.{TreePath}
use graph_agent_dev_kit.Types.TreePath.{parent, agrees, is_ancestor_of}

-- A path of which more steps follow.
pub record IsStrictPrefix (p q : TreePath) : Type 0 where
  pub next : ℕ
  pub steps : TreePath
  pub split : q ≡ p ++ next ∷ steps

agrees-append : (p rest : TreePath) → agrees p (p ++ rest) ≡ true
unfolding agrees
agrees-append [] rest = refl
agrees-append (i ∷ p) rest = ground (arith, agrees-append p rest)

prefix_of_agrees :
    (p q : TreePath) → agrees p q ≡ true → leb (length q) (length p) ≡ false → IsStrictPrefix p q
unfolding agrees
prefix_of_agrees [] [] h long = absurd cc
prefix_of_agrees [] (j ∷ q) h long = record { next = j; steps = q; split = refl }
prefix_of_agrees (i ∷ p) [] h long = absurd cc
prefix_of_agrees (i ∷ p) (j ∷ q) h long = elim (Bool-cases (nat_eqb j i)) [
  | inl same ↦
      let rest = prefix_of_agrees p q (rw same at h) (ground arith) in
      record {
        next = rest.next;
        steps = rest.steps;
        split = ap₂ (λ x l. x ∷ l) (eq_of_nat_test j i same) rest.split;
      }
  | inr other ↦ absurd (let no : false ≡ true = rw other at h in cc)
]

append_longer :
    (p steps : TreePath) (next : ℕ) → leb (length (p ++ next ∷ steps)) (length p) ≡ false
append_longer p steps next = ground (arith, length-append p (next ∷ steps))

ancestor_of_append : (p steps : TreePath) (next : ℕ) → is_ancestor_of p (p ++ next ∷ steps) ≡ true
unfolding is_ancestor_of
ancestor_of_append p steps next = rw (append_longer p steps next) (agrees-append p (next ∷ steps))

-- IsAncestorOf of two tree paths answers true exactly where the first is a strict prefix of the
-- second.
pub is_ancestor_of-prefix : (p q : TreePath) → (is_ancestor_of p q ≡ true) ↔ IsStrictPrefix p q
unfolding is_ancestor_of
is_ancestor_of-prefix p q = (
  λ h. elim (Bool-cases (leb (length q) (length p))) [
    | inl short ↦ absurd (let no : false ≡ true = rw short at h in cc)
    | inr long ↦ prefix_of_agrees p q (rw long at h) long
  ],
  λ s. ap (is_ancestor_of p) s.split ∙ ancestor_of_append p s.steps s.next,
)

parent-split : (i : ℕ) (p : TreePath) → (last : ℕ) × (i ∷ p ≡ parent (i ∷ p) ++ last ∷ [])
unfolding parent
parent-split i [] = (i, refl)
parent-split i (j ∷ p) = let (last, e) = parent-split j p in (last, ap (λ l. i ∷ l) e)

-- The parent of a path that is not empty is an ancestor of it.
pub parent-ancestor : (i : ℕ) (p : TreePath) → is_ancestor_of (parent (i ∷ p)) (i ∷ p) ≡ true
parent-ancestor i p =
    let (last, e) = parent-split i p in
    ap (is_ancestor_of (parent (i ∷ p))) e ∙ ancestor_of_append (parent (i ∷ p)) [] last
