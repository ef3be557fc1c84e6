-- ===== src/Tree/Extend.antt =====
-- What a new node does to the paths and the histories of a tree.
use mathlib.Core.List.{reverse-cons}
use graph_agent_dev_kit.Common.{
  ℕ, suc, ◌+◌, ◌≤◌, String, ◌==◌, none, some, Option, List, [], ◌∷◌, ◌++◌, length, reverse, ok,
  and_then, Result-cases, inl, inr, ◌≡◌, ◌≢◌, sym, ap, ◌∙◌, subst, arith, if◌then◌else◌,
}
use graph_agent_dev_kit.Common.Dict.{Dict, get, put, get-put, get-put_self}
use graph_agent_dev_kit.Types.Content.{Message}
use graph_agent_dev_kit.Types.Node.{Node, active, archived}
use graph_agent_dev_kit.Types.Wal.{Wal}
use graph_agent_dev_kit.Tree.State.{Tree, fresh_node, open_parent, link}
use graph_agent_dev_kit.Tree.Grow.{add_child, persist}
use graph_agent_dev_kit.Tree.Paths.{path, flatten, visible_messages}
use graph_agent_dev_kit.Tree.Lineage.{Climb, up, Climb-put, Climb-exists, path_of_Climb}
use graph_agent_dev_kit.Tree.Valid.{IsTree, IsTree-wal}
use graph_agent_dev_kit.Tree.Growth.{open_parent-ok, persist_cases}
use graph_agent_dev_kit.Tree.Messages.{Climb-AllFound, visible-put, visible-append}

length-put {ℓ} : {V : Type ℓ} (d : Dict V) (k : String) (v : V) → length d ≤ length (put d k v)
unfolding put
length-put [] k v = omega arith
length-put ((j, w) ∷ d) k v = ground (arith, length-put d k v)

-- The history of a node, as the chain above it gives it.
module _ {W : Type 0} where
  flatten_of_Climb :
      (t : Tree W) {id : String} {ids : List String}
      → Climb t.nodes id ids
      → length ids ≤ suc (length t.nodes)
      → flatten id t ≡ visible_messages t.nodes (reverse ids)
  unfolding flatten
  flatten_of_Climb t c h = ap (λ r. and_then r (visible_messages t.nodes)) (path_of_Climb t c h)

  tip-link :
      (t : Tree W) (child : Node) → get (link child t).branches child.branch_id ≡ some child.id
  unfolding link
  tip-link t child = get-put_self t.branches child.branch_id child.id

  -- A new node leaves the history of every other node as it was.
  flatten-link :
      (t : Tree W) (child : Node) (k : String) (n : Node)
      → IsTree t
      → get t.nodes child.id ≡ none
      → get t.nodes k ≡ some n
      → flatten k (link child t) ≡ flatten k t
  unfolding link
  flatten-link t child k n v fresh e =
      let (ids, c, short) = Climb-exists k n v.ranked e in
      let grown = length-put t.nodes child.id child in
      flatten_of_Climb (link child t) (Climb-put child.id child fresh c) (omega arith)
      ∙ visible-put t.nodes child.id child (reverse ids) fresh (Climb-AllFound c)
      ∙ sym (flatten_of_Climb t c (omega arith))

  -- The history of a new node is its parent's, and its message.
  flatten-link_child :
      (t : Tree W) (child parent : Node) (ms : List Message)
      → IsTree t
      → child.id ≢ ""
      → get t.nodes child.id ≡ none
      → get t.nodes child.parent_id ≡ some parent
      → child.state ≢ archived
      → flatten child.parent_id t ≡ ok ms
      → flatten child.id (link child t) ≡ ok (ms ++ child.message ∷ [])
  unfolding link
  flatten-link_child t child parent ms v named fresh e s h =
      let (ids, c, short) = Climb-exists child.parent_id parent v.ranked e in
      let grown = length-put t.nodes child.id child in
      let d = put t.nodes child.id child in
      let c' = Climb-put child.id child fresh c in
      let found = get-put_self t.nodes child.id child in
      let old : visible_messages d (reverse ids) ≡ ok ms =
        visible-put t.nodes child.id child (reverse ids) fresh (Climb-AllFound c)
        ∙ sym (flatten_of_Climb t c (omega arith))
        ∙ h in
      flatten_of_Climb (link child t) (up child named found c') (omega arith)
      ∙ ap (visible_messages d) (reverse-cons child.id ids)
      ∙ visible-append d (reverse ids) child.id child ms (Climb-AllFound c') found s old

module _ {W : Type 0} ⦃log : Wal W⦄ where
  -- A successful AddChild linked the node that it returns.
  record Added (parent_id : String) (msg : Message) (id : String) (now : ℕ) (t : Tree W)
      (child : Node) (t' : Tree W) : Type 0 where
    parent : Node
    parent_found : get t.nodes parent_id ≡ some parent
    log_after : Option W
    made : child ≡ fresh_node id parent_id msg active (parent.depth + 1) parent.branch_id now
    linked :
        t'
        ≡ link
            (fresh_node id parent_id msg active (parent.depth + 1) parent.branch_id now)
            (record t { wal = log_after })

  pub persist-ok :
      (n child : Node) (t t' : Tree W)
      → persist n t ≡ (ok child, t')
      → (w : Option W) × (child ≡ n) × (t' ≡ link n (record t { wal = w }))
  persist-ok n child t t' =
      persist_cases
        (λ r.
          r ≡ (ok child, t') → (w : Option W) × (child ≡ n) × (t' ≡ link n (record t { wal = w })))
        n t (λ e w h. cc) (λ w h. (w, cc, cc))

  add_child-Added :
      (parent_id : String) (msg : Message) (id : String) (now : ℕ) (t t' : Tree W) (child : Node)
      → add_child parent_id msg id now t ≡ (ok child, t')
      → Added parent_id msg id now t child t'
  unfolding add_child
  add_child-Added parent_id msg id now t t' child h =
      elim (Result-cases (open_parent parent_id t)) [
        | inl (p, e) ↦
            let (w, made, linked) = persist-ok _ child t t' (rw e at h) in
            record {
              parent = p;
              parent_found = (open_parent-ok parent_id t p e).0;
              log_after = w;
              made = made;
              linked = linked;
            }
        | inr (x, e) ↦ absurd (cc (rw e at h))
      ]

  -- In a well-formed tree, a successful AddChild with an id that is not empty and not in use
  -- makes the new node's history its parent's history with the message at the end, leaves the
  -- history of every other node as it was, and makes the node the tip of the branch it belongs
  -- to.
  pub add_child-flatten :
      (parent_id : String) (msg : Message) (id : String) (now : ℕ) (t t' : Tree W) (child : Node)
      (ms : List Message)
      → IsTree t
      → id ≢ ""
      → get t.nodes id ≡ none
      → flatten parent_id t ≡ ok ms
      → add_child parent_id msg id now t ≡ (ok child, t')
      → (flatten id t' ≡ ok (ms ++ msg ∷ []))
        × ((k : String) (n : Node) → get t.nodes k ≡ some n → flatten k t' ≡ flatten k t)
        × (get t'.branches child.branch_id ≡ some id)
  unfolding flatten path
  add_child-flatten parent_id msg id now t t' child ms v named fresh h added =
      let a = add_child-Added parent_id msg id now t t' child added in
      let c : Node =
        fresh_node id parent_id msg active (a.parent.depth + 1) a.parent.branch_id now in
      let s : Tree W = record t { wal = a.log_after } in
      let vs = IsTree-wal a.log_after v in
      (
        subst (λ u. flatten id u ≡ ok (ms ++ msg ∷ [])) (sym a.linked)
            (flatten-link_child s c a.parent ms vs named fresh a.parent_found (λ q. cc) h),
        (λ k n e.
            subst (λ u. flatten k u ≡ flatten k t) (sym a.linked)
              (flatten-link s c k n vs fresh e)),
        ap (λ (u : Tree W). get u.branches child.branch_id) a.linked
            ∙ ap (λ (m : Node). get (link c s).branches m.branch_id) a.made
            ∙ tip-link s c,
      )

  -- A successful AddChild points the branch of the parent at the new node and leaves every other
  -- branch where it was.
  pub add_child-branches :
      (parent_id : String) (msg : Message) (id : String) (now : ℕ) (t t' : Tree W)
      (child parent : Node)
      → get t.nodes parent_id ≡ some parent
      → add_child parent_id msg id now t ≡ (ok child, t')
      → (b : String)
      → get t'.branches b ≡ (if parent.branch_id == b then some id else get t.branches b)
  unfolding link
  add_child-branches parent_id msg id now t t' child parent e added b =
      let a = add_child-Added parent_id msg id now t t' child added in
      let same : a.parent ≡ parent = cc a.parent_found in
      ap (λ (u : Tree W). get u.branches b) a.linked
      ∙ get-put t.branches a.parent.branch_id b id
      ∙ ap (λ (m : Node). if m.branch_id == b then some id else get t.branches b) same
