-- ===== src/Memwal.antt =====
-- agent/store/memwal/memwal.go: the in-memory write-ahead log. A method runs under the mutex, so it
-- is one step on the state.
pub mod Issued
pub mod Durable
use Prim.Native.Nat.{◌%◌, ◌^◌}
use graph_agent_dev_kit.Common.{
  ℕ, ◌+◌, String, ◌<>◌, Bool, true, false, ◌||◌, Option, none, some, List, [], ◌∷◌, ◌++◌, Result,
  ok, err, Exec, if◌then◌else◌,
}
use graph_agent_dev_kit.Common.Dict.{Dict, get, put}
use graph_agent_dev_kit.Common.Decimal.{decimal}
use graph_agent_dev_kit.Types.Errors.{Error, opaque_error}
use graph_agent_dev_kit.Types.Wal.{TxOp, Wal}

pub record TxState : Type 0 where
  pub ops : List TxOp
  pub committed : Bool
  pub aborted : Bool

pub record MemWal : Type 0 where
  pub txns : Dict TxState
  pub next_id : ℕ

abbrev pub new : MemWal
new = record { txns = []; next_id = 0 }

-- The id of the n-th transaction, fmt.Sprintf("tx-%d", n).
unfoldable pub tx_id : ℕ → String
tx_id n = "tx-" <> decimal n

unfoldable pub begin : Exec MemWal Error String
unfolding tx_id
begin w =
    let next = (w.next_id + 1) % 2 ^ 64 in
    let id = tx_id next in
    let tx : TxState = record { ops = []; committed = false; aborted = false } in
    (ok id, record { txns = put w.txns id tx; next_id = next })

abbrev unknown_transaction : String → Error
unknown_transaction id = opaque_error ("unknown transaction: " <> id)

abbrev with_tx {ℓ} : {A : Type ℓ} → Option TxState → (TxState → A) → A → A
with_tx none f missing = missing
with_tx (some tx) f missing = f tx

abbrev store_tx : MemWal → String → TxState → Result Error (Unit {0}) × MemWal
store_tx w id tx = (ok tt, record w { txns = put w.txns id tx })

unfoldable pub append : String → TxOp → Exec MemWal Error (Unit {0})
append id op w =
    with_tx (get w.txns id)
      (λ tx.
        if tx.committed || tx.aborted
        then (err (opaque_error ("transaction " <> id <> " is already finalized")), w)
        else store_tx w id (record tx { ops = tx.ops ++ op ∷ [] }))
      (err (unknown_transaction id), w)

unfoldable pub commit : String → Exec MemWal Error (Unit {0})
commit id w =
    with_tx (get w.txns id)
      (λ tx.
        if tx.aborted
        then (err (opaque_error ("transaction " <> id <> " was aborted")), w)
        else store_tx w id (record tx { committed = true }))
      (err (unknown_transaction id), w)

unfoldable pub abort : String → Exec MemWal Error (Unit {0})
abort id w =
    with_tx (get w.txns id) (λ tx. store_tx w id (record tx { aborted = true }))
      (err (unknown_transaction id), w)

unfoldable pub committed_ids : Dict TxState → List String
committed_ids [] = []
committed_ids ((id, tx) ∷ txns) =
    let rest = committed_ids txns in if tx.committed then id ∷ rest else rest

unfoldable pub recover : Exec MemWal Error (List String)
unfolding committed_ids
recover w = (ok (committed_ids w.txns), w)

unfoldable pub replay : String → Exec MemWal Error (List TxOp)
replay id w = with_tx (get w.txns id) (λ tx. (ok tx.ops, w)) (err (unknown_transaction id), w)

-- The in-memory log as a log.
instance abbrev pub mem_wal : Wal MemWal
mem_wal = record {
  begin = begin;
  append = append;
  commit = commit;
  abort = abort;
  recover = recover;
  replay = replay;
}
