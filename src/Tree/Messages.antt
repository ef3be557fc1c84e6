-- ===== src/Tree/Messages.antt =====
-- The messages along a path: when they can be read, and what a new node changes.
use mathlib.Core.List.{reverse-cons}
use graph_agent_dev_kit.Common.{
  String, eq_iff, none, some, List, [], ◌∷◌, ◌++◌, reverse, Result, ok, and_then, ◌≡◌, ◌≢◌, refl,
  sym, ap, ◌∙◌, subst, arith,
}
use graph_agent_dev_kit.Common.Dict.{Dict, get, put, get-put}
use graph_agent_dev_kit.Types.Content.{Message}
use graph_agent_dev_kit.Types.Errors.{Error}
use graph_agent_dev_kit.Types.Node.{Node, archived}
use graph_agent_dev_kit.Tree.State.{Tree}
use graph_agent_dev_kit.Tree.Paths.{flatten, visible_messages, shown}
use graph_agent_dev_kit.Tree.Lineage.{Climb, stop, up, path-total}
use graph_agent_dev_kit.Tree.Valid.{Has, IsTree}

-- Every id of the list has a node.
abbrev pub AllFound : Dict Node → List String → Type 0
AllFound nodes [] = Unit {0}
AllFound nodes (id ∷ ids) = Has nodes id × AllFound nodes ids

module _ (nodes : Dict Node) where
  AllFound-append :
      (xs ys : List String) → AllFound nodes xs → AllFound nodes ys → AllFound nodes (xs ++ ys)
  AllFound-append [] ys f g = g
  AllFound-append (x ∷ xs) ys f g = (f.0, AllFound-append xs ys f.1 g)

  AllFound-reverse : (xs : List String) → AllFound nodes xs → AllFound nodes (reverse xs)
  AllFound-reverse [] f = f
  AllFound-reverse (x ∷ xs) f =
      subst (AllFound nodes) (sym (reverse-cons x xs))
        (AllFound-append (reverse xs) (x ∷ []) (AllFound-reverse xs f.1) (f.0, tt))

pub Climb-AllFound :
    {nodes : Dict Node} {id : String} {ids : List String}
    → Climb nodes id ids
    → AllFound nodes (reverse ids)
Climb-AllFound {nodes} {ids = ids} c = AllFound-reverse nodes ids (go c)
  where
    go :
        {nodes : Dict Node} {id : String} {ids : List String}
        → Climb nodes id ids
        → AllFound nodes ids
    go (stop e) = tt
    go (up n ne e c) = (record { value = n; found = e }, go c)

visible-cons :
    (nodes : Dict Node) (id : String) (ids : List String) (n : Node)
    → get nodes id ≡ some n
    → visible_messages nodes (id ∷ ids)
      ≡ and_then (visible_messages nodes ids) (λ ms. ok (shown n ms))
unfolding visible_messages
visible-cons nodes id ids n e = rw (e, visible_messages)

-- Where every id has a node, the messages can be read.
pub visible-total :
    (nodes : Dict Node) (ids : List String)
    → AllFound nodes ids
    → (ms : List Message) × (visible_messages nodes ids ≡ ok ms)
visible-total nodes [] f = ([], unfold visible_messages in refl)
visible-total nodes (id ∷ ids) f =
    let (ms, e) = visible-total nodes ids f.1 in
    (
      shown f.0.value ms,
      visible-cons nodes id ids f.0.value f.0.found
          ∙ ap (λ r. and_then r (λ ms. ok (shown f.0.value ms))) e,
    )

pub visible-put :
    (nodes : Dict Node) (new : String) (n : Node) (ids : List String)
    → get nodes new ≡ none
    → AllFound nodes ids
    → visible_messages (put nodes new n) ids ≡ visible_messages nodes ids
visible-put nodes new n [] fresh f = unfold visible_messages in refl
visible-put nodes new n (id ∷ ids) fresh f =
    let same : get (put nodes new n) id ≡ some f.0.value =
      ground (arith, get-put nodes new id n, eq_iff new id, f.0.found) in
    visible-cons (put nodes new n) id ids f.0.value same
    ∙ ap (λ r. and_then r (λ ms. ok (shown f.0.value ms))) (visible-put nodes new n ids fresh f.1)
    ∙ sym (visible-cons nodes id ids f.0.value f.0.found)

shown-append :
    (n : Node) (ms : List Message) (m : Message) → shown n (ms ++ m ∷ []) ≡ shown n ms ++ m ∷ []
shown-append n ms m = ground arith

-- A last node that is not archived adds its message at the end.
pub visible-append :
    (nodes : Dict Node) (ids : List String) (id : String) (n : Node) (ms : List Message)
    → AllFound nodes ids
    → get nodes id ≡ some n
    → n.state ≢ archived
    → visible_messages nodes ids ≡ ok ms
    → visible_messages nodes (ids ++ id ∷ []) ≡ ok (ms ++ n.message ∷ [])
visible-append nodes [] id n ms f e s h =
    visible-cons nodes id [] n e ∙ (unfold visible_messages in ground arith)
visible-append nodes (x ∷ ids) id n ms f e s h =
    let (rest, q) = visible-total nodes ids f.1 in
    let all : ◌≡◌ {A = Result Error (List Message)} (ok (shown f.0.value rest)) (ok ms) =
      ap (λ r. and_then r (λ l. ok (shown f.0.value l))) (sym q)
      ∙ sym (visible-cons nodes x ids f.0.value f.0.found)
      ∙ h in
    visible-cons nodes x (ids ++ id ∷ []) f.0.value f.0.found
    ∙ ap (λ r. and_then r (λ l. ok (shown f.0.value l)))
        (visible-append nodes ids id n rest f.1 e s q)
    ∙ ap ok (shown-append f.0.value rest n.message ∙ ap (λ l. l ++ n.message ∷ []) (cc all))

module _ {W : Type 0} where
  -- In a well-formed tree every node can be flattened: its path is found and each id on it has a
  -- node.
  pub flatten-total :
      (t : Tree W) (id : String) (n : Node)
      → IsTree t
      → get t.nodes id ≡ some n
      → (ms : List Message) × (flatten id t ≡ ok ms)
  unfolding flatten
  flatten-total t id n v e =
      let (ids, c, p) = path-total t id n v.ranked e in
      let (ms, q) = visible-total t.nodes (reverse ids) (Climb-AllFound c) in (ms, rw (p, q))
