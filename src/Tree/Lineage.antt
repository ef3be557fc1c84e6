-- ===== src/Tree/Lineage.antt =====
-- The chain of parents above a node, as a relation, and the climbing loop of pathUnlocked against
-- it.
use graph_agent_dev_kit.Common.{
  ℕ, zero, suc, ◌≤◌, ◌<◌, String, ◌==◌, eq_iff, Bool-cases, inl, inr, none, some, List, [], ◌∷◌,
  length, reverse, ok, and_then, ◌≡◌, ◌≢◌, ap, arith, leb, if◌then◌else◌, ne_of_test,
}
use graph_agent_dev_kit.Common.Dict.{Dict, get, put, get-put}
use graph_agent_dev_kit.Types.Node.{Node}
use graph_agent_dev_kit.Tree.State.{Tree}
use graph_agent_dev_kit.Tree.Paths.{ancestors, path}

-- `Climb nodes id ids`: from `id`, the parent pointers lead through `ids` to the empty id.
pub data Climb (nodes : Dict Node) : String → List String → Type 0 where
  stop : {id : String} → id ≡ "" → Climb nodes id []
  up :
      {id : String} {ids : List String} (n : Node)
      → id ≢ ""
      → get nodes id ≡ some n
      → Climb nodes n.parent_id ids
      → Climb nodes id (id ∷ ids)

pub ancestors_of_Climb :
    (f : ℕ) {nodes : Dict Node} {id : String} {ids : List String}
    → Climb nodes id ids
    → length ids ≤ f
    → ancestors f nodes id ≡ ok ids
unfolding ancestors
ancestors_of_Climb zero {id = id} (stop e) h = ground (arith, eq_iff id "")
ancestors_of_Climb (suc f) {id = id} (stop e) h = ground (arith, eq_iff id "")
ancestors_of_Climb zero {id = id} (up n ne e c) h = absurd (omega arith)
ancestors_of_Climb (suc f) {id = id} (up n ne e c) h =
    ground (arith, eq_iff id "", ancestors_of_Climb f c (omega arith))

-- A chain stays when a node is added under a new id.
pub Climb-put :
    {nodes : Dict Node} {id : String} {ids : List String} (new : String) (n : Node)
    → get nodes new ≡ none
    → Climb nodes id ids
    → Climb (put nodes new n) id ids
Climb-put new m fresh (stop e) = stop e
Climb-put {nodes} {id} new m fresh (up n ne e c) =
    up n ne (ground (arith, get-put nodes new id m, eq_iff new id)) (Climb-put new m fresh c)

-- The entries whose depth is at most `d`.
count_upto : ℕ → Dict Node → ℕ
count_upto d [] = 0
count_upto d ((id, n) ∷ nodes) =
    if leb n.depth d then suc (count_upto d nodes) else count_upto d nodes

count_upto-le : (d : ℕ) (nodes : Dict Node) → count_upto d nodes ≤ length nodes
unfolding count_upto
count_upto-le d [] = omega arith
count_upto-le d ((id, n) ∷ nodes) = ground (arith, count_upto-le d nodes)

count_upto_mono : (c d : ℕ) (nodes : Dict Node) → c ≤ d → count_upto c nodes ≤ count_upto d nodes
unfolding count_upto
count_upto_mono c d [] h = omega arith
count_upto_mono c d ((id, n) ∷ nodes) h = ground (arith, count_upto_mono c d nodes)

count_upto-pos :
    (nodes : Dict Node) (id : String) (n : Node)
    → get nodes id ≡ some n
    → 0 < count_upto n.depth nodes
unfolding count_upto get
count_upto-pos [] id n e = ground arith
count_upto-pos ((j, m) ∷ nodes) id n e = ground (arith, count_upto-pos nodes id n)

count_upto-lt :
    (c : ℕ) (nodes : Dict Node) (id : String) (n : Node)
    → get nodes id ≡ some n
    → c < n.depth
    → count_upto c nodes < count_upto n.depth nodes
unfolding count_upto get
count_upto-lt c [] id n e h = ground arith
count_upto-lt c ((j, m) ∷ nodes) id n e h =
    ground (arith, count_upto-lt c nodes id n, count_upto_mono c n.depth nodes)

-- Ids are not empty, and every parent is there and less deep.
pub record IsRanked (nodes : Dict Node) : Type 0 where
  pub named : (k : String) (n : Node) → get nodes k ≡ some n → k ≢ ""
  pub parented :
      (k : String) (n : Node)
      → get nodes k ≡ some n
      → n.parent_id ≢ ""
      → (p : Node) × (get nodes n.parent_id ≡ some p) × (p.depth < n.depth)

-- From a node of a ranked map the climb ends, after at most as many steps as there are nodes.
Climb-bounded :
    (f : ℕ) (nodes : Dict Node) (id : String) (n : Node)
    → IsRanked nodes
    → get nodes id ≡ some n
    → count_upto n.depth nodes ≤ f
    → (ids : List String) × Climb nodes id ids × (length ids ≤ count_upto n.depth nodes)
Climb-bounded zero nodes id n r e h = absurd (omega (arith, count_upto-pos nodes id n e))
Climb-bounded (suc f) nodes id n r e h = elim (Bool-cases (n.parent_id == "")) [
  | inl top ↦ (
    id ∷ [],
    up n (r.named id n e) e (stop ((eq_iff _ _).0 top)),
    omega (arith, count_upto-pos nodes id n e),
  )
  | inr below ↦
      let (p, found, less) = r.parented id n e (ne_of_test _ _ below) in
      let fewer = count_upto-lt p.depth nodes id n e less in
      let (ids, c, short) = Climb-bounded f nodes n.parent_id p r found (omega arith) in
      (id ∷ ids, up n (r.named id n e) e c, omega arith)
]

pub Climb-exists :
    {nodes : Dict Node} (id : String) (n : Node)
    → IsRanked nodes
    → get nodes id ≡ some n
    → (ids : List String) × Climb nodes id ids × (length ids ≤ length nodes)
Climb-exists {nodes} id n r e =
    let (ids, c, short) =
      Climb-bounded (length nodes) nodes id n r e (count_upto-le n.depth nodes) in
    (ids, c, omega (arith, count_upto-le n.depth nodes))

module _ {W : Type 0} where
  pub path_of_Climb :
      (t : Tree W) {id : String} {ids : List String}
      → Climb t.nodes id ids
      → length ids ≤ suc (length t.nodes)
      → path id t ≡ ok (reverse ids)
  unfolding path
  path_of_Climb t c h =
      ap (λ r. and_then r (λ ids. ok (reverse ids))) (ancestors_of_Climb (suc (length t.nodes)) c h)

  -- In a map of nodes where no id is empty and every parent is there and less deep, the loop of
  -- Path ends within one round for each node, and gives the chain of parents turned root first.
  pub path-total :
      (t : Tree W) (id : String) (n : Node)
      → IsRanked t.nodes
      → get t.nodes id ≡ some n
      → (ids : List String) × Climb t.nodes id ids × (path id t ≡ ok (reverse ids))
  path-total t id n r e =
      let (ids, c, short) = Climb-exists id n r e in (ids, c, path_of_Climb t c (omega arith))
