-- ===== src/Agent/Feedback.antt =====
-- agent/agent.go: Feedback and FeedbackSummary.
pub mod Summary
use graph_agent_dev_kit.Common.{ℕ, String, List, [], ◌∷◌, ◌++◌, Exec}
use graph_agent_dev_kit.Common.Int.{ℤ}
use graph_agent_dev_kit.Types.Content.{UserContent, user, FeedbackContent}
use graph_agent_dev_kit.Types.Errors.{Error}
use graph_agent_dev_kit.Types.Node.{Node}
use graph_agent_dev_kit.Types.Wal.{Wal}
use graph_agent_dev_kit.Tree.State.{Tree}
use graph_agent_dev_kit.Tree.Grow.{add_feedback}
use graph_agent_dev_kit.Tree.Paths.{feedback_nodes}

pub record FeedbackEntry : Type 0 where
  pub node_id : String
  pub target_node_id : String
  pub rating : ℤ
  pub comment : String

-- Feedback: `branch_uuid` and `id` are the ids that AddFeedback makes.
unfoldable pub give_feedback :
    {W : Type 0} ⦃log : Wal W⦄
    → String
    → ℤ
    → String
    → String
    → String
    → ℕ
    → Exec (Tree W) Error Node
give_feedback target rating comment branch_uuid id now =
    add_feedback target
      (user (
        UserContent.feedback
          (record { target_node_id = target; rating = rating; comment = comment })
        ∷ []))
      branch_uuid id now

-- The feedback blocks of a user message.
unfoldable pub content_entries : String → List UserContent → List FeedbackEntry
content_entries id [] = []
content_entries id (UserContent.feedback fb ∷ cs) =
    record {
      node_id = id;
      target_node_id = fb.target_node_id;
      rating = fb.rating;
      comment = fb.comment;
    }
    ∷ content_entries id cs
content_entries id (_ ∷ cs) = content_entries id cs

unfoldable pub node_entries : Node → List FeedbackEntry
unfolding content_entries
node_entries n = elim n.message [ user cs ↦ content_entries n.id cs | _ ↦ [] ]

unfoldable pub all_entries : List Node → List FeedbackEntry
unfolding node_entries
all_entries [] = []
all_entries (n ∷ ns) = node_entries n ++ all_entries ns

-- FeedbackSummary
unfoldable pub feedback_summary : {W : Type 0} → Tree W → List FeedbackEntry
unfolding all_entries
feedback_summary t = all_entries (feedback_nodes t.nodes)
