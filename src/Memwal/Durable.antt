-- ===== src/Memwal/Durable.antt =====
-- What a committed transaction of the in-memory log keeps.
use Prim.Native.Nat.{◌^◌}
use graph_agent_dev_kit.Common.{
  suc, ◌+◌, ◌≤◌, ◌<◌, String, true, ◌||◌, some, List, [], ◌∷◌, length, ok, ◌≡◌, refl, ap, arith,
  eq_iff, elem, inl, inr, Bool-cases, Option-cases,
}
use graph_agent_dev_kit.Common.Dict.{Dict, get, put}
use graph_agent_dev_kit.Types.Wal.{TxOp}
use graph_agent_dev_kit.Memwal.{
  MemWal, TxState, begin, append, commit, abort, recover, replay, committed_ids,
}
use graph_agent_dev_kit.Memwal.Issued.{
  IsIssued, IsCommitted, next_id-begin, begin-IsIssued, store-IsIssued, store-IsCommitted,
  begin-IsCommitted,
}

pub data Call : Type 0 where
  begins : Call
  appends : String → TxOp → Call
  commits aborts : String → Call

-- One method call of any client, and calls in the order in which the mutex lets them in.
pub step : MemWal → Call → MemWal
step w begins = (begin w).1
step w (appends id op) = (append id op w).1
step w (commits id) = (commit id w).1
step w (aborts id) = (abort id w).1

pub run : MemWal → List Call → MemWal
run w [] = w
run w (c ∷ cs) = run (step w c) cs

-- What one call may do: nothing, begin a transaction, or write one back that stays committed with
-- the same operations if it was.
data Effect (w : MemWal) : MemWal → Type 0 where
  unchanged : Effect w w
  begun : Effect w (begin w).1
  stored :
      (id : String) (tx tx' : TxState)
      → get w.txns id ≡ some tx
      → (tx.committed ≡ true → (tx'.committed ≡ true) × (tx'.ops ≡ tx.ops))
      → Effect w (record w { txns = put w.txns id tx' })

append-Effect : (w : MemWal) (id : String) (op : TxOp) → Effect w (append id op w).1
append-Effect w id op = elim (Option-cases (get w.txns id)) [
  | inl e ↦ unfold append in rw e unchanged
  | inr (tx, e) ↦ elim (Bool-cases (tx.committed || tx.aborted)) [
    | inl closed ↦ unfold append in rw (e, closed) unchanged
    | inr open_tx ↦ unfold append in rw (e, open_tx) (stored id tx _ e (λ c. ground arith))
  ]
]

commit-Effect : (w : MemWal) (id : String) → Effect w (commit id w).1
commit-Effect w id = elim (Option-cases (get w.txns id)) [
  | inl e ↦ unfold commit in rw e unchanged
  | inr (tx, e) ↦ elim (Bool-cases tx.aborted) [
    | inl closed ↦ unfold commit in rw (e, closed) unchanged
    | inr open_tx ↦ unfold commit in rw (e, open_tx) (stored id tx _ e (λ c. (refl, refl)))
  ]
]

abort-Effect : (w : MemWal) (id : String) → Effect w (abort id w).1
abort-Effect w id = elim (Option-cases (get w.txns id)) [
  | inl e ↦ unfold abort in rw e unchanged
  | inr (tx, e) ↦ unfold abort in rw e (stored id tx _ e (λ c. (c, refl)))
]

step-Effect : (w : MemWal) (c : Call) → Effect w (step w c)
unfolding step
step-Effect w begins = begun
step-Effect w (appends id op) = append-Effect w id op
step-Effect w (commits id) = commit-Effect w id
step-Effect w (aborts id) = abort-Effect w id

Effect-next_id : {w u : MemWal} → Effect w u → suc w.next_id < 2 ^ 64 → u.next_id ≤ suc w.next_id
Effect-next_id unchanged h = omega arith
Effect-next_id {w} begun h = omega (arith, next_id-begin w h)
Effect-next_id (stored id tx tx' e keep) h = omega arith

Effect-IsIssued : {w u : MemWal} → Effect w u → suc w.next_id < 2 ^ 64 → IsIssued w → IsIssued u
Effect-IsIssued unchanged h v = v
Effect-IsIssued {w} begun h v = begin-IsIssued w v h
Effect-IsIssued {w} (stored id tx tx' e keep) h v = store-IsIssued w id tx tx' e v

Effect-IsCommitted :
    {w u : MemWal} {id : String} {ops : List TxOp}
    → Effect w u
    → suc w.next_id < 2 ^ 64
    → IsIssued w
    → IsCommitted id ops w
    → IsCommitted id ops u
Effect-IsCommitted unchanged h v c = c
Effect-IsCommitted {w} {id = j} begun h v c = begin-IsCommitted w j h v c
Effect-IsCommitted {w} {id = j} (stored id tx tx' e keep) h v c =
    store-IsCommitted w id j tx tx' e keep c

run-IsCommitted :
    (w : MemWal) (cs : List Call) {id : String} {ops : List TxOp}
    → w.next_id + length cs < 2 ^ 64
    → IsIssued w
    → IsCommitted id ops w
    → IsCommitted id ops (run w cs)
unfolding run
run-IsCommitted w [] h v c = c
run-IsCommitted w (x ∷ xs) h v c =
    let e = step-Effect w x in
    let small : suc w.next_id < 2 ^ 64 = omega arith in
    run-IsCommitted (step w x) xs (omega (arith, Effect-next_id e small))
      (Effect-IsIssued e small v) (Effect-IsCommitted e small v c)

IsCommitted-replay :
    {w : MemWal} {id : String} {ops : List TxOp} → IsCommitted id ops w → (replay id w).0 ≡ ok ops
unfolding replay
IsCommitted-replay c = rw c.found (ap ok c.same)

recovered :
    (d : Dict TxState) (id : String) (tx : TxState)
    → get d id ≡ some tx
    → tx.committed ≡ true
    → elem id (committed_ids d) ≡ true
unfolding get committed_ids
recovered [] id tx e c = cc
recovered ((j, t) ∷ d) id tx e c = ground (arith, eq_iff j id, eq_iff id j, recovered d id tx)

-- In an in-memory log whose transactions it began itself, once a transaction is committed, its
-- replay gives the same operations and recovery lists it after any further calls, an abort of it
-- included, while the number of calls keeps the 64-bit counter from wrapping.
pub committed_stays :
    (w : MemWal) (cs : List Call) (id : String) (ops : List TxOp)
    → w.next_id + length cs < 2 ^ 64
    → IsIssued w
    → IsCommitted id ops w
    → (ids : List String) × ((replay id (run w cs)).0 ≡ ok ops)
      × ((recover (run w cs)).0 ≡ ok ids)
      × (elem id ids ≡ true)
unfolding recover
committed_stays w cs id ops h v c =
    let after = run-IsCommitted w cs h v c in
    let d = (run w cs).txns in
    (
      committed_ids d,
      IsCommitted-replay after,
      refl,
      recovered d id after.tx after.found after.committed,
    )
