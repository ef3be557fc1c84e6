-- ===== src/Examples/Names.antt =====
-- Two names for knowledge/internal/fuzzy: the bytes of "kit" and of "sits".
use graph_agent_dev_kit.Common.{[], ◌∷◌}
use graph_agent_dev_kit.Knowledge.Fuzzy.{
  Bytes, levenshtein_distance, first_row, fill_row, rows, last_of,
}
use graph_agent_dev_kit.Knowledge.Fuzzy.Shortest.{distance-IsShortest, IsShortest}

abbrev kit : Bytes
kit = 107 ∷ 105 ∷ 116 ∷ []

abbrev sits : Bytes
sits = 115 ∷ 105 ∷ 116 ∷ 115 ∷ []

distance-IsShortest_example : IsShortest kit sits 2
unfolding levenshtein_distance first_row fill_row rows last_of
distance-IsShortest_example = distance-IsShortest kit sits
