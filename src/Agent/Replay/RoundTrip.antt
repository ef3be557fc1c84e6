-- ===== src/Agent/Replay/RoundTrip.antt =====
-- About Replay of agent/stream.go and the aggregator of agent/aggregator.go together.
use mathlib.Core.List.{append-nil, append_assoc}
use text.Mathlib.TextLemmas.{nil-append}
use graph_agent_dev_kit.Common.{false, some, List, [], ◌∷◌, ◌++◌, ◌≡◌, refl, ap, ◌∙◌, arith}
use graph_agent_dev_kit.Types.Content.{assistant, AssistantContent}
use graph_agent_dev_kit.Types.Delta.{Delta}
use graph_agent_dev_kit.Agent.Aggregator.{Aggregator, new_aggregator, push, push_all, message}
use graph_agent_dev_kit.Agent.Replay.{replay_block, replay_blocks, replay_message}

pub push_all-append :
    (a : Aggregator) (xs ys : List Delta) → push_all a (xs ++ ys) ≡ push_all (push_all a xs) ys
unfolding push_all
push_all-append a [] ys = refl
push_all-append a (d ∷ xs) ys = push_all-append (push a d) xs ys

-- What one replayed block does to an aggregator that is in no text.
block_blocks :
    (a : Aggregator) (b : AssistantContent)
    → (push_all a (replay_block b)).content_blocks ≡ a.content_blocks ++ b ∷ []
unfolding push_all replay_block
block_blocks a (AssistantContent.text s) = rw nil-append
block_blocks a (AssistantContent.tool_use u) = refl
block_blocks a (AssistantContent.thinking t) = rw nil-append

block_in_text :
    (a : Aggregator) (b : AssistantContent)
    → a.in_text ≡ false
    → (push_all a (replay_block b)).in_text ≡ false
unfolding push_all replay_block
block_in_text a (AssistantContent.text s) h = refl
block_in_text a (AssistantContent.tool_use u) h = h
block_in_text a (AssistantContent.thinking t) h = h

blocks_replayed :
    (a : Aggregator) (bs : List AssistantContent)
    → a.in_text ≡ false
    → ((push_all a (replay_blocks bs)).content_blocks ≡ a.content_blocks ++ bs)
      × ((push_all a (replay_blocks bs)).in_text ≡ false)
unfolding replay_blocks
blocks_replayed a [] h = unfold push_all in (rw append-nil, h)
blocks_replayed a (b ∷ bs) h =
    let one = push_all a (replay_block b) in
    let (blocks, closed) = blocks_replayed one bs (block_in_text a b h) in
    rw push_all-append (
      blocks ∙ ap (λ l. l ++ bs) (block_blocks a b) ∙ append_assoc a.content_blocks (b ∷ []) bs,
      closed,
    )

-- The aggregator, fed with the deltas that Replay streams for an assistant message that has a
-- block, builds the same message.
pub message-replay :
    (b : AssistantContent) (bs : List AssistantContent)
    → message (push_all new_aggregator (replay_message (assistant (b ∷ bs))))
      ≡ some (assistant (b ∷ bs))
unfolding message replay_message
message-replay b bs =
    let (blocks, closed) = blocks_replayed new_aggregator (b ∷ bs) refl in
    ground (arith, blocks, closed)
