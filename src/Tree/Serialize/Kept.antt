-- ===== src/Tree/Serialize/Kept.antt =====
-- About the operations of agent/tree/tree.go and the maps of the Tree: whatever an operation does, no
-- key stands twice after it.
use graph_agent_dev_kit.Common.{
  ℕ, zero, suc, String, ◌==◌, Bool, true, Bool-cases, Result-cases, inl, inr, List, [], ◌∷◌, Exec,
  ◌>>=◌, pure, refl,
}
use graph_agent_dev_kit.Common.Dict.{Dict, get, put}
use graph_agent_dev_kit.Types.Content.{UserContent}
use graph_agent_dev_kit.Types.Errors.{Error}
use graph_agent_dev_kit.Types.Node.{Node}
use graph_agent_dev_kit.Types.Wal.{Wal}
use graph_agent_dev_kit.Tree.State.{Tree, find_node, get_node, open_parent, or_empty, new}
use graph_agent_dev_kit.Tree.Grow.{
  persist, add_child, add_feedback, branch, update_user_message, editable,
}
use graph_agent_dev_kit.Tree.Archive.{walk, for_children, on_nodes, archive, restore}
use graph_agent_dev_kit.Tree.Growth.{persist_cases}
use graph_agent_dev_kit.Tree.History.{
  Step, Reached, made, after, add_child_step, add_feedback_step, branch_step,
  update_user_message_step, set_active_step, checkpoint_step, rewind_step, archive_step,
  restore_step,
}
use graph_agent_dev_kit.Tree.Serialize.Stored.{
  IsMap, IsMap-put, IsStored, IsStored-wal, IsStored-nodes, link-IsStored, set_active-IsStored,
  checkpoint-IsStored, rewind-IsStored,
}

-- A walk writes to the map of nodes by `put` alone.
for_children-IsMap :
    (visit : Node → Exec (Dict Node) Error (Unit {0}))
    → ((n : Node) (d : Dict Node) → IsMap d → IsMap (visit n d).1)
    → (ids : List String) (d : Dict Node) → IsMap d
    → IsMap (for_children visit ids d).1
unfolding for_children
for_children-IsMap visit keeps [] d h = h
for_children-IsMap visit keeps (id ∷ ids) d h = elim (Result-cases (find_node d id)) [
  | inr (x, e) ↦ rw (e, for_children) h
  | inl (n, e) ↦
      let first = keeps n d h in
      elim (Result-cases (visit n d).0) [
        | inl (u, done) ↦
            rw (e, for_children, done) (for_children-IsMap visit keeps ids (visit n d).1 first)
        | inr (x, failed) ↦ rw (e, for_children, failed) first
      ]
]

walk-IsMap :
    (mark : Node → Node) (children : Dict (List String)) (f : ℕ) (recursive : Bool) (n : Node)
    (d : Dict Node)
    → IsMap d
    → IsMap (walk mark children f recursive n d).1
unfolding walk
walk-IsMap mark children zero recursive n d h = h
walk-IsMap mark children (suc f) recursive n d h =
    let first = IsMap-put d n.id (mark n) h in
    let rest =
      for_children-IsMap (walk mark children f true) (walk-IsMap mark children f true)
        (or_empty (get children n.id)) (put d n.id (mark n)) first in
    elim (Bool-cases recursive) [ inl all ↦ rw all rest | inr one ↦ rw one first ]

module _ {W : Type 0} where
  on_nodes-IsStored :
      (mark : Node → Node) (recursive : Bool) (n : Node) (t : Tree W)
      → IsStored t
      → IsStored (on_nodes mark recursive n t).1
  on_nodes-IsStored mark recursive n t s =
      IsStored-nodes _ (walk-IsMap mark t.children _ recursive n t.nodes s.nodes_map) s

  archive-IsStored :
      (id by : String) (recursive : Bool) (now : ℕ) (t : Tree W)
      → IsStored t
      → IsStored (archive id by recursive now t).1
  archive-IsStored id by recursive now t s = elim (Result-cases (get_node id t)) [
    | inr (x, e) ↦ unfold archive in rw e s
    | inl (n, e) ↦ elim (Bool-cases (n.parent_id == "")) [
      | inl top ↦ unfold archive in rw (e, top) s
      | inr below ↦ unfold archive in rw (e, below) (on_nodes-IsStored _ recursive n t s)
    ]
  ]

  restore-IsStored :
      (id : String) (recursive : Bool) (now : ℕ) (t : Tree W)
      → IsStored t
      → IsStored (restore id recursive now t).1
  restore-IsStored id recursive now t s = elim (Result-cases (get_node id t)) [
    | inr (x, e) ↦ unfold restore in rw e s
    | inl (n, e) ↦ unfold restore in rw e (on_nodes-IsStored _ recursive n t s)
  ]

module _ {W : Type 0} ⦃log : Wal W⦄ where
  persist-IsStored : (child : Node) (t : Tree W) → IsStored t → IsStored (persist child t).1
  persist-IsStored child t s =
      persist_cases (λ r. IsStored r.1) child t (λ e w. IsStored-wal w s)
        (λ w. link-IsStored (record t { wal = w }) child (IsStored-wal w s))

  -- `pure` after a write changes no state.
  then_pure-IsStored :
      {A : Type 0} (f : Node → A) (child : Node) (t : Tree W)
      → IsStored t
      → IsStored ((persist child >>= λ n. pure (f n)) t).1
  then_pure-IsStored f child t s = elim (Result-cases (persist child t).0) [
    | inl (n, e) ↦ rw (e, ◌>>=◌) (persist-IsStored child t s)
    | inr (x, e) ↦ rw (e, ◌>>=◌) (persist-IsStored child t s)
  ]

  update_user_message-IsStored :
      (node_id : String) (content : List UserContent) (branch_uuid id : String) (now : ℕ)
      (t : Tree W)
      → IsStored t
      → IsStored (update_user_message node_id content branch_uuid id now t).1
  update_user_message-IsStored node_id content branch_uuid id now t s =
      elim (Result-cases (editable node_id t)) [
        | inl (n, e) ↦ elim (Result-cases (get_node n.parent_id t)) [
          | inl (p, e') ↦ unfold update_user_message in rw (e, e') (then_pure-IsStored _ _ t s)
          | inr (x, e') ↦ unfold update_user_message in rw (e, e') s
        ]
        | inr (x, e) ↦ unfold update_user_message in rw e s
      ]

  Step-IsStored : {t u : Tree W} → Step t u → IsStored t → IsStored u
  Step-IsStored {t} (add_child_step p m id now ne fresh) s = elim (Result-cases (open_parent p t)) [
    | inl (n, e) ↦ unfold add_child in rw e (persist-IsStored _ t s)
    | inr (x, e) ↦ unfold add_child in rw e s
  ]
  Step-IsStored {t} (add_feedback_step p m b id now ne fresh) s =
      elim (Result-cases (open_parent p t)) [
        | inl (n, e) ↦ unfold add_feedback in rw e (persist-IsStored _ t s)
        | inr (x, e) ↦ unfold add_feedback in rw e s
      ]
  Step-IsStored {t} (branch_step p name m b id now ne fresh) s =
      elim (Result-cases (open_parent p t)) [
        | inl (n, e) ↦ unfold branch in rw e (then_pure-IsStored _ _ t s)
        | inr (x, e) ↦ unfold branch in rw e s
      ]
  Step-IsStored {t} (update_user_message_step n cs b id now ne fresh) s =
      update_user_message-IsStored n cs b id now t s
  Step-IsStored {t} (set_active_step b) s = set_active-IsStored b t s
  Step-IsStored {t} (checkpoint_step b name id now) s = checkpoint-IsStored b name id now t s
  Step-IsStored {t} (rewind_step cp id) s = rewind-IsStored cp id t s
  Step-IsStored {t} (archive_step id by r now) s = archive-IsStored id by r now t s
  Step-IsStored {t} (restore_step id r now) s = restore-IsStored id r now t s

  pub Reached-IsStored : {t : Tree W} → Reached t → IsStored t
  unfolding new IsMap put get
  Reached-IsStored (made content id now w ne) = record {
    nodes_map = (refl, tt);
    children_map = tt;
    branches_map = (refl, tt);
    checkpoints_map = tt;
    saved_keyed = λ c cp q. absurd cc;
  }
  Reached-IsStored (after r x) = Step-IsStored x (Reached-IsStored r)
