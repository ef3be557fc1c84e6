-- ===== src/Examples/Documents.antt =====
-- Two documents for rag/memstore.
use graph_agent_dev_kit.Common.{ℕ, String, some, [], ok, ◌≡◌, refl}
use graph_agent_dev_kit.Common.Dict.{get, put}
use graph_agent_dev_kit.Rag.Memstore.{
  Store, Document, empty_store, create_document, find_by_fingerprint, get_document,
}
use graph_agent_dev_kit.Rag.Memstore.History.{
  StoreReached, opened, later, created, find_by_fingerprint-found,
}

abbrev page : String → String → Document ℕ
page id mark = record {
  uuid = id;
  source_uri = "file:///";
  fingerprint = mark;
  title = "";
  metadata = [];
  sections = [];
}

abbrev one_page : Store ℕ
one_page = create_document (page "u" "f") empty_store

one_page-StoreReached : StoreReached one_page
unfolding get
one_page-StoreReached = later opened (created (page "u" "f") refl)

found_page : find_by_fingerprint "f" one_page ≡ ok (some (page "u" "f"))
unfolding create_document find_by_fingerprint get put
found_page = refl

find_by_fingerprint-found_example :
    (d : Document ℕ) × (some (page "u" "f") ≡ some d)
    × (d.fingerprint ≡ "f")
    × (get_document d.uuid one_page ≡ ok d)
find_by_fingerprint-found_example =
    find_by_fingerprint-found one_page "f" (some (page "u" "f")) one_page-StoreReached found_page
