-- ===== src/Examples/Ratings.antt =====
-- A rating of the root of a new conversation, for agent/agent.go.
use graph_agent_dev_kit.Common.{none, [], ◌∷◌, ◌++◌, ok, ◌≡◌, refl}
use graph_agent_dev_kit.Common.Dict.{get, put}
use graph_agent_dev_kit.Common.Int.{pos}
use graph_agent_dev_kit.Types.Content.{SystemContent, UserContent, user}
use graph_agent_dev_kit.Types.Node.{Node, feedback}
use graph_agent_dev_kit.Memwal.{MemWal, mem_wal}
use graph_agent_dev_kit.Tree.State.{
  Tree, new, fresh_node, get_node, find_node, open_parent, attach, link, wal_add_node, write_log,
}
use graph_agent_dev_kit.Tree.Grow.{add_feedback, persist}
use graph_agent_dev_kit.Agent.Feedback.{give_feedback, feedback_summary}
use graph_agent_dev_kit.Agent.Feedback.Summary.{give_feedback-summary}

abbrev begun : Tree MemWal
begun = new (SystemContent.text "be brief" ∷ []) "r" 0 none

abbrev praised : Tree MemWal
praised = (give_feedback "r" (pos 1) "good" "12345678-9abc" "a" 1 begun).1

abbrev praise_node : Node
praise_node =
    fresh_node "a" "r"
      (user (
        UserContent.feedback (record { target_node_id = "r"; rating = pos 1; comment = "good" })
        ∷ []))
      feedback 1 "feedback-12345678" 1

praised_ok :
    give_feedback "r" (pos 1) "good" "12345678-9abc" "a" 1 begun ≡ (ok praise_node, praised)
unfolding give_feedback add_feedback open_parent persist wal_add_node write_log link attach new get
    put get_node find_node
praised_ok = refl

give_feedback-summary_example :
    feedback_summary praised
    ≡ feedback_summary begun
      ++ record { node_id = "a"; target_node_id = "r"; rating = pos 1; comment = "good" } ∷ []
unfolding new get put
give_feedback-summary_example =
    give_feedback-summary "r" "good" "12345678-9abc" "a" (pos 1) 1 begun praised praise_node refl
      praised_ok
