-- ===== src/Tree/Growth.antt =====
-- About the operations of Grow and the well-formedness of agent/tree/tree.go's Tree.
use graph_agent_dev_kit.Common.{
  ℕ, ◌+◌, String, none, some, Option, List, Result, ok, err, inl, inr, Result-cases, Option-cases,
  subst, ◌>>=◌, pure, ◌≡◌, ◌≢◌, arith,
}
use graph_agent_dev_kit.Common.Dict.{get, get-put_cases}
use graph_agent_dev_kit.Types.Content.{Message, UserContent}
use graph_agent_dev_kit.Types.Errors.{Error}
use graph_agent_dev_kit.Types.Node.{Node, NodeState, Checkpoint, archived, feedback}
use graph_agent_dev_kit.Types.Wal.{Wal}
use graph_agent_dev_kit.Tree.State.{
  Tree, fresh_node, get_node, open_parent, link, write_log, wal_add_node,
}
use graph_agent_dev_kit.Tree.Grow.{
  persist, add_child, add_feedback, branch, update_user_message, checkpoint, rewind, set_active,
  editable, find_checkpoint,
}
use graph_agent_dev_kit.Tree.Valid.{
  IsTree, IsTree-wal, IsLinkable, link-IsTree, move_branch-IsTree, Has,
}

module _ {W : Type 0} where
  pub get_node-ok :
      (id : String) (t : Tree W) (n : Node) → get_node id t ≡ ok n → get t.nodes id ≡ some n
  unfolding get_node
  get_node-ok id t n e = ground arith

  pub open_parent-ok :
      (id : String) (t : Tree W) (n : Node)
      → open_parent id t ≡ ok n
      → (get t.nodes id ≡ some n) × (n.state ≢ archived) × (n.state ≢ feedback)
  unfolding open_parent
  open_parent-ok id t n e = ground arith

module _ {W : Type 0} ⦃log : Wal W⦄ where
  -- A write that fails leaves all but the log; one that succeeds links the node.
  pub persist_cases {ℓ} :
      (P : Result Error Node × Tree W → Type ℓ) (child : Node) (t : Tree W)
      → ((e : Error) (w : Option W) → P (err e, record t { wal = w }))
      → ((w : Option W) → P (ok child, link child (record t { wal = w })))
      → P (persist child t)
  persist_cases P child t failed linked = elim (Result-cases (write_log t.wal child).0) [
    | inl (u, e) ↦ unfold persist wal_add_node in rw e (linked (write_log t.wal child).1)
    | inr (x, e) ↦ unfold persist wal_add_node in rw e (failed x (write_log t.wal child).1)
  ]

  persist-IsTree :
      (child : Node) (t : Tree W) → IsTree t → IsLinkable t.nodes child → IsTree (persist child t).1
  persist-IsTree child t v l =
      persist_cases (λ r. IsTree r.1) child t (λ e w. IsTree-wal w v)
        (λ w. link-IsTree (record t { wal = w }) child (IsTree-wal w v) l)

  -- A child of a node that is there, under a new id.
  linkable :
      (t : Tree W) (p : Node) (parent_id id : String) (msg : Message) (s : NodeState) (b : String)
      (now : ℕ)
      → get t.nodes parent_id ≡ some p
      → id ≢ ""
      → get t.nodes id ≡ none
      → IsLinkable t.nodes (fresh_node id parent_id msg s (p.depth + 1) b now)
  linkable t p parent_id id msg s b now e named fresh = record {
    named = named;
    fresh = fresh;
    parent = p;
    parent_found = e;
    deeper = omega arith;
  }

  pub add_child-IsTree :
      (parent_id : String) (msg : Message) (id : String) (now : ℕ) (t : Tree W)
      → IsTree t
      → id ≢ ""
      → get t.nodes id ≡ none
      → IsTree (add_child parent_id msg id now t).1
  add_child-IsTree parent_id msg id now t v named fresh =
      elim (Result-cases (open_parent parent_id t)) [
        | inl (p, e) ↦
            unfold add_child in
            rw e (
              persist-IsTree _ t v (
                linkable t p parent_id id msg _ _ now (open_parent-ok parent_id t p e).0 named
                  fresh))
        | inr (x, e) ↦ unfold add_child in rw e v
      ]

  pub add_feedback-IsTree :
      (parent_id : String) (msg : Message) (branch_uuid id : String) (now : ℕ) (t : Tree W)
      → IsTree t
      → id ≢ ""
      → get t.nodes id ≡ none
      → IsTree (add_feedback parent_id msg branch_uuid id now t).1
  add_feedback-IsTree parent_id msg branch_uuid id now t v named fresh =
      elim (Result-cases (open_parent parent_id t)) [
        | inl (p, e) ↦
            unfold add_feedback in
            rw e (
              persist-IsTree _ t v (
                linkable t p parent_id id msg _ _ now (open_parent-ok parent_id t p e).0 named
                  fresh))
        | inr (x, e) ↦ unfold add_feedback in rw e v
      ]

  -- `pure` after a write changes no state.
  then_pure-IsTree :
      {A : Type 0} (f : Node → A) (child : Node) (t : Tree W)
      → IsTree (persist child t).1
      → IsTree ((persist child >>= λ n. pure (f n)) t).1
  then_pure-IsTree f child t v = elim (Result-cases (persist child t).0) [
    | inl (n, e) ↦ rw (e, ◌>>=◌) v
    | inr (x, e) ↦ rw (e, ◌>>=◌) v
  ]

  pub branch-IsTree :
      (from_id name : String) (msg : Message) (branch_uuid id : String) (now : ℕ) (t : Tree W)
      → IsTree t
      → id ≢ ""
      → get t.nodes id ≡ none
      → IsTree (branch from_id name msg branch_uuid id now t).1
  branch-IsTree from_id name msg branch_uuid id now t v named fresh =
      elim (Result-cases (open_parent from_id t)) [
        | inl (p, e) ↦
            unfold branch in
            rw e (
              then_pure-IsTree _ _ t (
                persist-IsTree _ t v (
                  linkable t p from_id id msg _ _ now (open_parent-ok from_id t p e).0 named
                    fresh)))
        | inr (x, e) ↦ unfold branch in rw e v
      ]

  pub update_user_message-IsTree :
      (node_id : String) (content : List UserContent) (branch_uuid id : String) (now : ℕ)
      (t : Tree W)
      → IsTree t
      → id ≢ ""
      → get t.nodes id ≡ none
      → IsTree (update_user_message node_id content branch_uuid id now t).1
  update_user_message-IsTree node_id content branch_uuid id now t v named fresh =
      elim (Result-cases (editable node_id t)) [
        | inl (n, e) ↦ elim (Result-cases (get_node n.parent_id t)) [
          | inl (p, e') ↦
              unfold update_user_message in
              rw (e, e')
                (then_pure-IsTree _ _ t (
                  persist-IsTree _ t v (
                    linkable t p n.parent_id id _ _ _ now (get_node-ok n.parent_id t p e') named
                      fresh)))
          | inr (x, e') ↦ unfold update_user_message in rw (e, e') v
        ]
        | inr (x, e) ↦ unfold update_user_message in rw e v
      ]

module _ {W : Type 0} where
  pub set_active-IsTree : (b : String) (t : Tree W) → IsTree t → IsTree (set_active b t).1
  set_active-IsTree b t v = elim (Option-cases (get t.branches b)) [
    | inl e ↦ unfold set_active in rw (e, set_active) v
    | inr (k, e) ↦
        unfold set_active in
        rw (e, set_active)
          (record {
            ranked = v.ranked;
            keyed = v.keyed;
            rooted = v.rooted;
            listed = v.listed;
            children_found = v.children_found;
            children_below = v.children_below;
            tips_found = v.tips_found;
            active_found = record { value = k; found = e };
            saved_found = v.saved_found;
          })
  ]

  pub checkpoint-IsTree :
      (b name id : String) (now : ℕ) (t : Tree W) → IsTree t → IsTree (checkpoint b name id now t).1
  checkpoint-IsTree b name id now t v = elim (Option-cases (get t.branches b)) [
    | inl e ↦ unfold checkpoint in rw (e, checkpoint) v
    | inr (k, e) ↦
        unfold checkpoint in
        rw (e, checkpoint)
          (record {
            ranked = v.ranked;
            keyed = v.keyed;
            rooted = v.rooted;
            listed = v.listed;
            children_found = v.children_found;
            children_below = v.children_below;
            tips_found = v.tips_found;
            active_found = v.active_found;
            saved_found = λ c cp q. elim (get-put_cases t.checkpoints id c _ q) [
              | inl (_, new) ↦
                  subst (λ (m : Checkpoint). Has t.nodes m.node_id) new (v.tips_found b k e)
              | inr (_, old) ↦ v.saved_found c cp old
            ];
          })
  ]

  pub rewind-IsTree :
      (cp_id new_id : String) (t : Tree W) → IsTree t → IsTree (rewind cp_id new_id t).1
  rewind-IsTree cp_id new_id t v = elim (Option-cases (get t.checkpoints cp_id)) [
    | inl e ↦ unfold rewind in rw (e, find_checkpoint) v
    | inr (cp, e) ↦ elim (Result-cases (get_node cp.node_id t)) [
      | inl (n, found) ↦
          unfold rewind in
          rw (e, find_checkpoint, found)
            (move_branch-IsTree _ cp.node_id t v (v.saved_found cp_id cp e))
      | inr (x, missing) ↦ unfold rewind in rw (e, find_checkpoint, missing) v
    ]
  ]
