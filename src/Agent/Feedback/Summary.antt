-- ===== src/Agent/Feedback/Summary.antt =====
-- About Feedback and FeedbackSummary of agent/agent.go, one after the other.
use mathlib.Core.List.{append-nil, append_assoc}
use graph_agent_dev_kit.Common.{
  ℕ, String, none, List, [], ◌∷◌, ◌++◌, ok, Result-cases, inl, inr, ◌≡◌, refl, ap, sym, ◌∙◌, arith,
}
use graph_agent_dev_kit.Common.Dict.{Dict, get, put-fresh}
use graph_agent_dev_kit.Common.Int.{ℤ}
use graph_agent_dev_kit.Types.Node.{Node, feedback}
use graph_agent_dev_kit.Types.Wal.{Wal}
use graph_agent_dev_kit.Tree.State.{Tree, open_parent, link, attach}
use graph_agent_dev_kit.Tree.Grow.{add_feedback}
use graph_agent_dev_kit.Tree.Paths.{feedback_nodes}
use graph_agent_dev_kit.Tree.Extend.{persist-ok}
use graph_agent_dev_kit.Agent.Feedback.{
  give_feedback, content_entries, node_entries, all_entries, feedback_summary,
}

feedback_nodes-append :
    (a b : Dict Node) → feedback_nodes (a ++ b) ≡ feedback_nodes a ++ feedback_nodes b
unfolding feedback_nodes
feedback_nodes-append [] b = refl
feedback_nodes-append ((k, n) ∷ a) b = ground (arith, feedback_nodes-append a b)

all_entries-append : (a b : List Node) → all_entries (a ++ b) ≡ all_entries a ++ all_entries b
unfolding all_entries
all_entries-append [] b = refl
all_entries-append (n ∷ a) b =
    ap (λ l. node_entries n ++ l) (all_entries-append a b)
    ∙ sym (append_assoc (node_entries n) (all_entries a) (all_entries b))

-- A new feedback node that is linked is a new entry.
link-summary :
    {W : Type 0} (t : Tree W) (child : Node)
    → get t.nodes child.id ≡ none
    → child.state ≡ feedback
    → feedback_summary (link child t) ≡ feedback_summary t ++ node_entries child
unfolding feedback_summary link attach
link-summary t child fresh is_feedback =
    let last : feedback_nodes ((child.id, child) ∷ []) ≡ child ∷ [] =
      unfold feedback_nodes in ground arith in
    let one : all_entries (child ∷ []) ≡ node_entries child =
      unfold all_entries in append-nil (node_entries child) in
    ap (λ d. all_entries (feedback_nodes d)) (put-fresh t.nodes child.id child fresh)
    ∙ ap all_entries (
        feedback_nodes-append t.nodes ((child.id, child) ∷ [])
        ∙ ap (λ l. feedback_nodes t.nodes ++ l) last)
    ∙ all_entries-append (feedback_nodes t.nodes) (child ∷ [])
    ∙ ap (λ l. all_entries (feedback_nodes t.nodes) ++ l) one

module _ {W : Type 0} ⦃log : Wal W⦄ where
  -- A successful Feedback under an id that is not in use adds to what FeedbackSummary lists one
  -- entry, with the new node's id, its target, its rating and its comment, and keeps the other
  -- entries.
  pub give_feedback-summary :
      (target comment branch_uuid id : String) (rating : ℤ) (now : ℕ) (t u : Tree W) (n : Node)
      → get t.nodes id ≡ none
      → give_feedback target rating comment branch_uuid id now t ≡ (ok n, u)
      → feedback_summary u
        ≡ feedback_summary t
          ++ record { node_id = id; target_node_id = target; rating = rating; comment = comment }
            ∷ []
  unfolding give_feedback add_feedback feedback_summary node_entries content_entries
  give_feedback-summary target comment branch_uuid id rating now t u n fresh h =
      elim (Result-cases (open_parent target t)) [
        | inr (x, e) ↦ absurd (cc (rw e at h))
        | inl (p, e) ↦
            let (w, made, linked) = persist-ok _ n t u (rw e at h) in
            ap feedback_summary linked ∙ link-summary (record t { wal = w }) _ fresh refl
      ]
