-- ===== src/Tree/Serialize.antt =====
-- agent/tree/serialize.go: a Tree as JSON. The package encoding/json is a parameter: a codec for each
-- type that the source passes to json.Marshal and json.Unmarshal, over any type of JSON texts.
pub mod Envelopes
pub mod Trees
pub mod Messages
pub mod Stored
pub mod Kept
pub mod RoundTrip
