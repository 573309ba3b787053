-- ===== src/Admin/Search/Collections.antt =====
-- search.go: the three collections, which are made where they are missing.
use novagate.Base.{true, false, Option, none, some, ◌++◌, ok, err}
use novagate.Protocol.Bytes.{Bytes}
use novagate.Server.Registry.{ascii}
use novagate.Admin.Search.Embedding.{Floats}
use novagate.Admin.Search.{
  users_hot_collection_name, docs_hot_collection_name, docs_cold_collection_name, SearchError,
  Schema, Index, Milvus, then_do, collection_fields, hnsw, ivf_sq8,
}

module _ (f : Floats) (m : Milvus f) where
  index_and_load : Bytes → Index → m.Server → m.Server × Option SearchError
  index_and_load name index s = elim (m.new_index index) [
    | some e ↦ (s, some e)
    | none ↦ then_do (m.create_index s name index) (λ s'. m.load_collection s' name)
  ]

  create_unless_there : Bytes → Schema → Index → m.Server → m.Server × Option SearchError
  unfolding index_and_load
  create_unless_there name schema index s = elim (m.has_collection s name) [
    | err e ↦ (s, some e)
    | ok true ↦ (s, none)
    | ok false ↦ then_do (m.create_collection s schema) (index_and_load name index)
  ]

  unfoldable pub create_hot_collection : Bytes → m.Server → m.Server × Option SearchError
  unfolding create_unless_there
  create_hot_collection name s =
      create_unless_there name
        (record {
          collection_name = name;
          description = ascii "Hot data search index for " ++ (name ++ ascii " (HNSW)");
          fields = collection_fields;
        })
        (hnsw 16 200) s

  unfoldable pub create_cold_collection : Bytes → m.Server → m.Server × Option SearchError
  unfolding create_unless_there
  create_cold_collection name s =
      create_unless_there name
        (record {
          collection_name = name;
          description = ascii "Cold data search index for " ++ (name ++ ascii " (IVF_SQ8)");
          fields = collection_fields;
        })
        (ivf_sq8 1024) s

  unfoldable pub init_collections : m.Server → m.Server × Option SearchError
  unfolding create_hot_collection create_cold_collection
  init_collections s = then_do (create_hot_collection users_hot_collection_name s) (λ s1.
      then_do (create_hot_collection docs_hot_collection_name s1)
        (create_cold_collection docs_cold_collection_name))
