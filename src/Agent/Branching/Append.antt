-- ===== src/Agent/Branching/Append.antt =====
-- What the loop's way to append a message does to the branch's history.
use graph_agent_dev_kit.Common.{
  ℕ, String, some, List, [], ◌∷◌, ◌++◌, ok, inl, inr, ◌≡◌, ◌≢◌, sym, ap, ◌∙◌, subst, arith, eq_iff,
  none, Option-cases,
}
use graph_agent_dev_kit.Common.Dict.{get}
use graph_agent_dev_kit.Types.Content.{Message}
use graph_agent_dev_kit.Types.Node.{Node}
use graph_agent_dev_kit.Types.Wal.{Wal}
use graph_agent_dev_kit.Tree.State.{Tree}
use graph_agent_dev_kit.Tree.Grow.{add_child}
use graph_agent_dev_kit.Tree.Paths.{tip, branch_tip, flatten, flatten_branch}
use graph_agent_dev_kit.Tree.Valid.{IsTree}
use graph_agent_dev_kit.Tree.Growth.{get_node-ok}
use graph_agent_dev_kit.Tree.Messages.{flatten-total}
use graph_agent_dev_kit.Tree.Extend.{add_child-flatten, add_child-branches}
use graph_agent_dev_kit.Agent.Branching.{append_message}

module _ {W : Type 0} where
  -- The tip of a branch is the node that the branch map names.
  tip-ok :
      (b : String) (t : Tree W) (n : Node)
      → IsTree t
      → tip b t ≡ ok n
      → (get t.branches b ≡ some n.id) × (get t.nodes n.id ≡ some n)
  unfolding tip branch_tip
  tip-ok b t n v h = elim (Option-cases (get t.branches b)) [
    | inl e ↦ absurd (cc (rw (e, branch_tip) at h))
    | inr (k, e) ↦
        let found = get_node-ok k t n (rw (e, branch_tip) at h) in
        let same = v.keyed k n found in
        (e ∙ ap some (sym same), subst (λ i. get t.nodes i ≡ some n) (sym same) found)
  ]

  flatten_branch-eq :
      (b k : String) (t : Tree W) → get t.branches b ≡ some k → flatten_branch b t ≡ flatten k t
  unfolding flatten_branch branch_tip
  flatten_branch-eq b k t e = rw (e, branch_tip)

module _ {W : Type 0} ⦃log : Wal W⦄ where
  append_message-add_child :
      (b : String) (msg : Message) (id : String) (now : ℕ) (t : Tree W) (n : Node)
      → tip b t ≡ ok n
      → append_message b msg id now t ≡ add_child n.id msg id now t
  unfolding append_message
  append_message-add_child b msg id now t n e = rw e

  -- In a well-formed tree, a message that the loop appends with success, under an id that is not
  -- empty and not in use, to a branch whose tip was made on that branch is at the end of the
  -- branch's history.
  pub append_message-flatten_branch :
      (b : String) (msg : Message) (id : String) (now : ℕ) (t t' : Tree W) (n child : Node)
      (ms : List Message)
      → IsTree t
      → id ≢ ""
      → get t.nodes id ≡ none
      → tip b t ≡ ok n
      → n.branch_id ≡ b
      → flatten_branch b t ≡ ok ms
      → append_message b msg id now t ≡ (ok child, t')
      → flatten_branch b t' ≡ ok (ms ++ msg ∷ [])
  append_message-flatten_branch b msg id now t t' n child ms v named fresh at_tip own h added =
      let (b_tip, found) = tip-ok b t n v at_tip in
      let run = sym (append_message-add_child b msg id now t n at_tip) ∙ added in
      let (long, _, _) =
        add_child-flatten n.id msg id now t t' child ms v named fresh
          (sym (flatten_branch-eq b n.id t b_tip) ∙ h) run in
      let moved = add_child-branches n.id msg id now t t' child n found run b in
      flatten_branch-eq b id t' (ground (arith, moved, eq_iff n.branch_id b)) ∙ long

  -- In a well-formed tree, when the tip of a branch was made on another branch, as after Rewind,
  -- a message that the loop appends to the branch with success, under an id that is not empty
  -- and not in use, leaves the branch's history as it was, and becomes the tip of that other
  -- branch.
  pub append_message-other_branch :
      (b : String) (msg : Message) (id : String) (now : ℕ) (t t' : Tree W) (n child : Node)
      → IsTree t
      → id ≢ ""
      → get t.nodes id ≡ none
      → tip b t ≡ ok n
      → n.branch_id ≢ b
      → append_message b msg id now t ≡ (ok child, t')
      → (flatten_branch b t' ≡ flatten_branch b t) × (get t'.branches n.branch_id ≡ some id)
  append_message-other_branch b msg id now t t' n child v named fresh at_tip other added =
      let (b_tip, found) = tip-ok b t n v at_tip in
      let run = sym (append_message-add_child b msg id now t n at_tip) ∙ added in
      let (ms, h) = flatten-total t n.id n v found in
      let (_, others, _) = add_child-flatten n.id msg id now t t' child ms v named fresh h run in
      let moved = add_child-branches n.id msg id now t t' child n found run in
      (
        flatten_branch-eq b n.id t' (ground (arith, moved b, eq_iff n.branch_id b))
            ∙ others n.id n found
            ∙ sym (flatten_branch-eq b n.id t b_tip),
        ground (arith, moved n.branch_id, eq_iff n.branch_id n.branch_id),
      )
