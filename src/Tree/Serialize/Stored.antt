-- ===== src/Tree/Serialize/Stored.antt =====
-- The maps of agent/tree/tree.go's Tree as lists of entries: no key stands twice, and a checkpoint
-- stands under its own id.
use graph_agent_dev_kit.Common.{
  ℕ, String, ◌==◌, Bool-cases, Option-cases, Result-cases, inl, inr, none, some, Option, [], ◌∷◌,
  ◌≡◌, refl, ap, sym, ◌∙◌, arith, eq_iff,
}
use graph_agent_dev_kit.Common.Dict.{Dict, get, put, get-put, get-put_cases}
use graph_agent_dev_kit.Types.Node.{Node, Checkpoint}
use graph_agent_dev_kit.Tree.State.{Tree, get_node, attach, link, new}
use graph_agent_dev_kit.Tree.Grow.{set_active, checkpoint, rewind, find_checkpoint}

unfoldable pub IsMap {ℓ} : {V : Type ℓ} → Dict V → Type ℓ
IsMap [] = Unit
IsMap ((k, v) ∷ d) = (get d k ≡ none) × IsMap d

module _ {ℓ} {V : Type ℓ} where
  pub IsMap-put : (d : Dict V) (k : String) (v : V) → IsMap d → IsMap (put d k v)
  unfolding IsMap put get
  IsMap-put [] k v h = (refl, tt)
  IsMap-put ((j, w) ∷ d) k v (fresh, rest) = elim (Bool-cases (j == k)) [
    | inl same ↦ rw same (ground (arith, eq_iff j k), rest)
    | inr other ↦ rw other (ground (arith, get-put d k j v, eq_iff k j), IsMap-put d k v rest)
  ]

module _ {W : Type 0} where
  pub record IsStored (t : Tree W) : Type 0 where
    pub nodes_map : IsMap t.nodes
    pub children_map : IsMap t.children
    pub branches_map : IsMap t.branches
    pub checkpoints_map : IsMap t.checkpoints
    pub saved_keyed : (c : String) (cp : Checkpoint) → get t.checkpoints c ≡ some cp → cp.id ≡ c

  pub IsStored-wal : {t : Tree W} (w : Option W) → IsStored t → IsStored (record t { wal = w })
  IsStored-wal w s = record {
    nodes_map = s.nodes_map;
    children_map = s.children_map;
    branches_map = s.branches_map;
    checkpoints_map = s.checkpoints_map;
    saved_keyed = s.saved_keyed;
  }

  pub IsStored-nodes :
      {t : Tree W} (d : Dict Node) → IsMap d → IsStored t → IsStored (record t { nodes = d })
  IsStored-nodes d h s = record {
    nodes_map = h;
    children_map = s.children_map;
    branches_map = s.branches_map;
    checkpoints_map = s.checkpoints_map;
    saved_keyed = s.saved_keyed;
  }

  IsStored-branch :
      {t : Tree W} (b k : String)
      → IsStored t
      → IsStored (record t { branches = put t.branches b k })
  IsStored-branch {t} b k s = record {
    nodes_map = s.nodes_map;
    children_map = s.children_map;
    branches_map = IsMap-put t.branches b k s.branches_map;
    checkpoints_map = s.checkpoints_map;
    saved_keyed = s.saved_keyed;
  }

  pub link-IsStored : (t : Tree W) (child : Node) → IsStored t → IsStored (link child t)
  unfolding link attach
  link-IsStored t child s = record {
    nodes_map = IsMap-put t.nodes child.id child s.nodes_map;
    children_map = IsMap-put t.children child.parent_id _ s.children_map;
    branches_map = IsMap-put t.branches child.branch_id child.id s.branches_map;
    checkpoints_map = s.checkpoints_map;
    saved_keyed = s.saved_keyed;
  }

  pub set_active-IsStored : (b : String) (t : Tree W) → IsStored t → IsStored (set_active b t).1
  set_active-IsStored b t s = elim (Option-cases (get t.branches b)) [
    | inl e ↦ unfold set_active in rw (e, set_active) s
    | inr (k, e) ↦
        unfold set_active in
        rw (e, set_active)
          (record {
            nodes_map = s.nodes_map;
            children_map = s.children_map;
            branches_map = s.branches_map;
            checkpoints_map = s.checkpoints_map;
            saved_keyed = s.saved_keyed;
          })
  ]

  pub checkpoint-IsStored :
      (b name id : String) (now : ℕ) (t : Tree W)
      → IsStored t
      → IsStored (checkpoint b name id now t).1
  checkpoint-IsStored b name id now t s = elim (Option-cases (get t.branches b)) [
    | inl e ↦ unfold checkpoint in rw (e, checkpoint) s
    | inr (k, e) ↦
        unfold checkpoint in
        rw (e, checkpoint)
          (record {
            nodes_map = s.nodes_map;
            children_map = s.children_map;
            branches_map = s.branches_map;
            checkpoints_map = IsMap-put t.checkpoints id _ s.checkpoints_map;
            saved_keyed = λ c cp q. elim (get-put_cases t.checkpoints id c _ q) [
              | inl (same, new) ↦ ap (λ (m : Checkpoint). m.id) (sym new) ∙ same
              | inr (_, old) ↦ s.saved_keyed c cp old
            ];
          })
  ]

  pub rewind-IsStored :
      (cp_id new_id : String) (t : Tree W) → IsStored t → IsStored (rewind cp_id new_id t).1
  rewind-IsStored cp_id new_id t s = elim (Result-cases (find_checkpoint cp_id t)) [
    | inl (cp, e) ↦ elim (Result-cases (get_node cp.node_id t)) [
      | inl (n, found) ↦ unfold rewind in rw (e, found) (IsStored-branch _ cp.node_id s)
      | inr (x, missing) ↦ unfold rewind in rw (e, missing) s
    ]
    | inr (x, e) ↦ unfold rewind in rw e s
  ]
