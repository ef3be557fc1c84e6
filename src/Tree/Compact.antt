-- ===== src/Tree/Compact.antt =====
-- agent/tree/compact.go: (*Tree).Compact. The tokenizer and the provider are interfaces that this
-- package only calls, so both are arguments; `ids i` is the i-th id that types.NewID makes.
use graph_agent_dev_kit.Common.{
  ℕ, suc, ◌/◌, String, ◌<>◌, ◌==◌, Bool, true, false, not, ◌&&◌, none, some, List, [], ◌∷◌, ◌++◌,
  length, take, elem, leb, Result, ok, err, Exec, and_then, if◌then◌else◌,
}
use graph_agent_dev_kit.Common.Dict.{Dict, get, put}
use graph_agent_dev_kit.Types.Content.{Message, new_user_message}
use graph_agent_dev_kit.Types.Errors.{Error, wrapped, panics}
use graph_agent_dev_kit.Types.Node.{Node, active, compacted}
use graph_agent_dev_kit.Types.Delta.{Chat, streamed_text}
use graph_agent_dev_kit.Types.Compactor.{summary_request}
use graph_agent_dev_kit.Tree.State.{Tree, fresh_node, short_id, attach}
use graph_agent_dev_kit.Tree.Paths.{path, branch_tip, visible_messages}

pub record CompactOpts : Type 0 where
  pub max_tokens : ℕ
  pub preserve_shared : Bool

pub record Candidate : Type 0 where
  pub id : String
  pub node : Node

abbrev is_active : Node → Bool
is_active n = elim n.state [ active ↦ true | _ ↦ false ]

-- The three tests of the loop over the path.
is_candidate : Bool → List String → String → Node → Bool
is_candidate preserve shared id n =
    not (n.parent_id == "") && is_active n && not (preserve && elem id shared)

unfoldable pub candidates :
    Dict Node → Bool → List String → List String → Result Error (List Candidate)
unfolding is_candidate
candidates nodes preserve shared [] = ok []
candidates nodes preserve shared (id ∷ ids) = elim (get nodes id) [
  | none ↦ err panics
  | some n ↦ and_then (candidates nodes preserve shared ids) (λ cs.
      ok (if is_candidate preserve shared id n then record { id = id; node = n } ∷ cs else cs))
]

-- The ids of the path behind the last node that is summarised.
unfoldable pub after_last : String → Bool → List String → List String
after_last last past [] = []
after_last last past (id ∷ ids) =
    let past_here = after_last last true ids in
    let rest = after_last last past ids in
    if id == last then past_here else if past then id ∷ rest else rest

last_id : Candidate → List Candidate → String
last_id c [] = c.id
last_id c (d ∷ ds) = last_id d ds

candidate_ids : List Candidate → List String
candidate_ids [] = []
candidate_ids (c ∷ cs) = c.id ∷ candidate_ids cs

candidate_messages : List Candidate → List Message
candidate_messages [] = []
candidate_messages (c ∷ cs) = c.node.message ∷ candidate_messages cs

-- len(candidates)/2, or at least 1.
abbrev pub compact_count : List Candidate → ℕ
compact_count cs = if leb 1 (length cs / 2) then length cs / 2 else 1

module _ {W : Type 0} where
  -- The ids on the paths of the other branches; a branch whose path fails is passed over.
  shared_ids : Tree W → String → Dict String → List String
  shared_ids t branch [] = []
  shared_ids t branch ((name, tip_id) ∷ others) =
      let rest = shared_ids t branch others in
      if name == branch then rest else elim (path tip_id t) [ ok ids ↦ ids ++ rest | err e ↦ rest ]

  -- The loop that clones the remaining nodes, each under the one before: the new tip and the tree.
  unfoldable pub clone_chain :
      (ℕ → String) → ℕ → String → ℕ → String → List String → Tree W → Result Error (String × Tree W)
  clone_chain ids i branch_id now prev [] t = ok (prev, t)
  clone_chain ids i branch_id now prev (nid ∷ rest) t = elim (get t.nodes nid) [
    | none ↦ err panics
    | some orig ↦ clone_chain ids (suc i) branch_id now (ids i) rest (
        attach
          (record (fresh_node (ids i) prev orig.message active orig.depth branch_id now) {
            created_at = orig.created_at;
          })
          t)
  ]

  -- The new branch: the summary beside the first summarised node, and the clones.
  unfoldable pub rebuild :
      (ℕ → String)
      → ℕ
      → String
      → String
      → Candidate
      → List Candidate
      → List String
      → Tree W
      → Result Error (String × Tree W)
  unfolding clone_chain after_last last_id candidate_ids
  rebuild ids now branch_id summary first more on_path t =
      let summary_node =
        record (fresh_node (ids 1) first.node.parent_id
          (new_user_message ("Summary of previous conversation: " <> summary)) compacted
          first.node.depth branch_id now) { summary_of = first.id ∷ candidate_ids more } in
      clone_chain ids 2 branch_id now (ids 1) (after_last (last_id first more) false on_path)
        (attach summary_node t)

  finish : String → Tree W → Result Error (String × Tree W) → Result Error String × Tree W
  finish branch_id t (err e) = (err e, t)
  finish branch_id t (ok (tip_id, t')) = (
    ok branch_id,
    record t' { branches = put t'.branches branch_id tip_id; active_branch = branch_id },
  )

  -- What is done with the candidates.
  unfoldable pub compact_candidates :
      Chat → (ℕ → String) → ℕ → String → List String → List Candidate → Exec (Tree W) Error String
  unfolding rebuild finish candidate_messages
  compact_candidates chat ids now branch on_path cs t = elim (take (compact_count cs) cs) [
    | [] ↦ (ok branch, t)
    | first ∷ more ↦ elim (chat (summary_request (candidate_messages (first ∷ more))) []) [
      | err e ↦ (err (wrapped "summarization" e), t)
      | ok deltas ↦
          let branch_id = "compact-" <> branch <> "-" <> short_id (ids 0) in
          finish branch_id t (rebuild ids now branch_id (streamed_text deltas) first more on_path t)
    ]
  ]

  over_budget :
      Chat → (ℕ → String) → ℕ → CompactOpts → String → List String → Exec (Tree W) Error String
  unfolding compact_candidates shared_ids
  over_budget chat ids now opts branch on_path t =
      let shared = if opts.preserve_shared then shared_ids t branch t.branches else [] in
      elim (candidates t.nodes opts.preserve_shared shared on_path) [
        | err e ↦ (err e, t)
        | ok cs ↦ compact_candidates chat ids now branch on_path cs t
      ]

  counted :
      Chat
      → (ℕ → String)
      → ℕ
      → CompactOpts
      → String
      → List String
      → Result Error ℕ
      → Exec (Tree W) Error String
  unfolding over_budget
  counted chat ids now opts branch on_path (err e) t = (err (wrapped "counting tokens" e), t)
  counted chat ids now opts branch on_path (ok tokens) t =
      if leb tokens opts.max_tokens
      then (ok branch, t)
      else over_budget chat ids now opts branch on_path t

  -- Compact
  unfoldable pub compact :
      (List Message → Result Error ℕ)
      → Chat
      → (ℕ → String)
      → ℕ
      → CompactOpts
      → String
      → Exec (Tree W) Error String
  unfolding counted branch_tip
  compact count_tokens chat ids now opts branch t =
      elim (and_then (branch_tip branch t) (λ tip_id. path tip_id t)) [
        | err e ↦ (err e, t)
        | ok on_path ↦ elim (visible_messages t.nodes on_path) [
          | err e ↦ (err e, t)
          | ok messages ↦ counted chat ids now opts branch on_path (count_tokens messages) t
        ]
      ]
