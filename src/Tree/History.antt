-- ===== src/Tree/History.antt =====
-- Every tree that the operations of agent/tree/tree.go build from New, whatever their order,
-- arguments and errors: a new id is the only thing that is asked of a call. (*Tree).Compact is not
-- among the steps.
use graph_agent_dev_kit.Common.{
  ℕ, String, Bool, true, none, some, Option, List, [], inl, inr, ok, elem, ◌≡◌, ◌≢◌, sym, ap, ◌∙◌,
  subst,
}
use graph_agent_dev_kit.Common.Dict.{get, put, get-put_cases, get-put_self}
use graph_agent_dev_kit.Types.Content.{Message, SystemContent, UserContent}
use graph_agent_dev_kit.Types.Node.{Node}
use graph_agent_dev_kit.Types.Wal.{Wal}
use graph_agent_dev_kit.Tree.State.{Tree, new, or_empty}
use graph_agent_dev_kit.Tree.Grow.{
  add_child, add_feedback, branch, update_user_message, set_active, checkpoint, rewind,
}
use graph_agent_dev_kit.Tree.Archive.{archive, restore}
use graph_agent_dev_kit.Tree.Paths.{flatten_branch, branch_tip}
use graph_agent_dev_kit.Tree.Valid.{IsTree, Has}
use graph_agent_dev_kit.Tree.Growth.{
  add_child-IsTree, add_feedback-IsTree, branch-IsTree, update_user_message-IsTree,
  set_active-IsTree, checkpoint-IsTree, rewind-IsTree,
}
use graph_agent_dev_kit.Tree.Walks.{archive-IsTree, restore-IsTree}
use graph_agent_dev_kit.Tree.Messages.{flatten-total}

module _ {W : Type 0} ⦃log : Wal W⦄ where
  -- One call, which may fail. Where a node is made, its id is not empty and not in use.
  pub data Step (t : Tree W) : Tree W → Type 0 where
    add_child_step :
        (parent_id : String) (msg : Message) (id : String) (now : ℕ)
        → id ≢ ""
        → get t.nodes id ≡ none
        → Step t (add_child parent_id msg id now t).1
    add_feedback_step :
        (parent_id : String) (msg : Message) (branch_uuid id : String) (now : ℕ)
        → id ≢ ""
        → get t.nodes id ≡ none
        → Step t (add_feedback parent_id msg branch_uuid id now t).1
    branch_step :
        (from_id name : String) (msg : Message) (branch_uuid id : String) (now : ℕ)
        → id ≢ ""
        → get t.nodes id ≡ none
        → Step t (branch from_id name msg branch_uuid id now t).1
    update_user_message_step :
        (node_id : String) (content : List UserContent) (branch_uuid id : String) (now : ℕ)
        → id ≢ ""
        → get t.nodes id ≡ none
        → Step t (update_user_message node_id content branch_uuid id now t).1
    set_active_step : (b : String) → Step t (set_active b t).1
    checkpoint_step : (b name id : String) (now : ℕ) → Step t (checkpoint b name id now t).1
    rewind_step : (cp_id new_id : String) → Step t (rewind cp_id new_id t).1
    archive_step :
        (id by : String) (recursive : Bool) (now : ℕ) → Step t (archive id by recursive now t).1
    restore_step :
        (id : String) (recursive : Bool) (now : ℕ) → Step t (restore id recursive now t).1

  -- The trees after any number of calls on a new tree.
  pub data Reached : Tree W → Type 0 where
    made :
        (content : List SystemContent) (id : String) (now : ℕ) (w : Option W)
        → id ≢ ""
        → Reached (new content id now w)
    after : {t u : Tree W} → Reached t → Step t u → Reached u

  Step-IsTree : {t u : Tree W} → Step t u → IsTree t → IsTree u
  Step-IsTree {t} (add_child_step p m id now ne fresh) v = add_child-IsTree p m id now t v ne fresh
  Step-IsTree {t} (add_feedback_step p m b id now ne fresh) v =
      add_feedback-IsTree p m b id now t v ne fresh
  Step-IsTree {t} (branch_step p name m b id now ne fresh) v =
      branch-IsTree p name m b id now t v ne fresh
  Step-IsTree {t} (update_user_message_step n cs b id now ne fresh) v =
      update_user_message-IsTree n cs b id now t v ne fresh
  Step-IsTree {t} (set_active_step b) v = set_active-IsTree b t v
  Step-IsTree {t} (checkpoint_step b name id now) v = checkpoint-IsTree b name id now t v
  Step-IsTree {t} (rewind_step cp id) v = rewind-IsTree cp id t v
  Step-IsTree {t} (archive_step id by r now) v = archive-IsTree id by r now t v
  Step-IsTree {t} (restore_step id r now) v = restore-IsTree id r now t v

-- The only entry of a map of one.
one-found :
    {V : Type 0} (id k : String) (v w : V) → get (put [] id v) k ≡ some w → (id ≡ k) × (v ≡ w)
one-found id k v w e = elim (get-put_cases [] id k v e) [
  | inl found ↦ found
  | inr (_, old) ↦ absurd (unfold get in cc old)
]

no_child : (p k : String) → elem k (or_empty (get [] p)) ≡ true → ⊥
unfolding get
no_child p k e = cc

module _ {W : Type 0} where
  -- A new tree is well-formed.
  pub new-IsTree :
      (content : List SystemContent) (id : String) (now : ℕ) (w : Option W)
      → id ≢ ""
      → IsTree (new content id now w)
  unfolding new
  new-IsTree content id now w ne = record {
    ranked = record {
      named = λ k n e. subst (λ i. i ≢ "") (one-found id k _ n e).0 ne;
      parented = λ k n e below.
          absurd (below (ap (λ (m : Node). m.parent_id) (sym (one-found id k _ n e).1)));
    };
    keyed =
        λ k n e. ap (λ (m : Node). m.id) (sym (one-found id k _ n e).1) ∙ (one-found id k _ n e).0;
    rooted = λ k n e top. sym (one-found id k _ n e).0;
    listed = λ k n e below.
        absurd (below (ap (λ (m : Node). m.parent_id) (sym (one-found id k _ n e).1)));
    children_found = λ p k e. absurd (no_child p k e);
    children_below = λ p k n e q. absurd (no_child p k e);
    tips_found = λ b k e. has k (one-found "main" b id k e).1;
    active_found = record { value = id; found = get-put_self [] "main" id };
    saved_found = λ c cp e. absurd (unfold get in cc e);
  }
    where
      has : (k : String) → id ≡ k → Has (new content id now w).nodes k
      has k same =
          subst (Has (new content id now w).nodes) same
            (record { value = _; found = get-put_self [] id _ })

module _ {W : Type 0} ⦃log : Wal W⦄ where
  -- After any sequence of calls of AddChild, AddFeedback, Branch, UpdateUserMessage, SetActive,
  -- Checkpoint, Rewind, Archive and Restore on a new tree, failed calls included, where a call
  -- that makes a node gets an id that is not empty and not in use, the tree is well-formed: ids
  -- are keys, every parent is there and less deep, the lists of children agree with the parent
  -- pointers, only the root has no parent, and the branch tips, the checkpoints and the active
  -- branch name something that is there.
  pub Reached-IsTree : {t : Tree W} → Reached t → IsTree t
  Reached-IsTree (made content id now w ne) = new-IsTree content id now w ne
  Reached-IsTree (after r s) = Step-IsTree s (Reached-IsTree r)

  -- In every tree that calls reach from a new tree, FlattenBranch of a branch that the tree has
  -- returns a history: it neither fails nor loops.
  pub Reached-flatten_branch :
      {t : Tree W} (b k : String)
      → Reached t
      → get t.branches b ≡ some k
      → (ms : List Message) × (flatten_branch b t ≡ ok ms)
  unfolding flatten_branch branch_tip
  Reached-flatten_branch {t} b k r e =
      let v = Reached-IsTree r in
      let tip = v.tips_found b k e in
      let (ms, flat) = flatten-total t k tip.value v tip.found in (ms, rw (e, branch_tip) flat)
