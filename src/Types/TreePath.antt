-- ===== src/Types/TreePath.antt =====
-- agent/types/node.go: the parent of a tree path, and the test for an ancestor.
pub mod Prefix
use graph_agent_dev_kit.Common.{
  ℕ, suc, Bool, true, false, List, [], ◌∷◌, length, leb, nat_eqb, if◌then◌else◌,
}
use graph_agent_dev_kit.Types.Node.{TreePath}

-- Parent: nil and the empty path are one.
unfoldable pub parent : TreePath → TreePath
parent [] = []
parent (i ∷ []) = []
parent (i ∷ j ∷ is) = i ∷ parent (j ∷ is)

-- The loop of IsAncestorOf over p; where `other` is shorter the source would index past its end.
unfoldable pub agrees : TreePath → TreePath → Bool
agrees [] other = true
agrees (i ∷ p) [] = false
agrees (i ∷ p) (j ∷ other) = let rest = agrees p other in if nat_eqb j i then rest else false

-- IsAncestorOf
unfoldable pub is_ancestor_of : TreePath → TreePath → Bool
unfolding agrees
is_ancestor_of p other = if leb (length other) (length p) then false else agrees p other
