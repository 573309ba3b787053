-- ===== src/Admin/Search/Queries.antt =====
-- search.go: indexing, searching and deleting.
use novagate.Base.{
  ℕ, Option, none, List, [], ◌∷◌, ◌++◌, Result, ok, err, ltb, length, take, if◌then◌else◌,
}
use novagate.Base.Key.{bytes_beq}
use novagate.Protocol.Bytes.{Bytes}
use novagate.Server.Registry.{ascii}
use novagate.Acl.Model.{Time}
use novagate.Admin.Search.Embedding.{Floats, generate_simple_embedding}
use novagate.Admin.Search.{
  users_hot_collection_name, docs_hot_collection_name, docs_cold_collection_name, SearchError,
  Milvus, Layout, User, Document, calculate_hnsw_param, calculate_nprobe, is_hot_data, hnsw_ef,
  ivf_nprobe,
}

-- `if len(ids) > topK { ids = ids[:topK] }`
unfoldable pub limited : ℕ → List Bytes → List Bytes
limited top_k ids = if ltb top_k (length ids) then take top_k ids else ids

module _ (f : Floats) (m : Milvus f) where
  unfoldable pub index_user : User → m.Server → m.Server × Option SearchError
  index_user user s =
      let text = user.id ++ (b' ' ∷ user.name ++ (b' ' ∷ user.email)) in
      m.insert s users_hot_collection_name user.id text (generate_simple_embedding f text)

  unfoldable pub index_document :
      (Layout → Bytes → Option Time) → Time → Document → m.Server → m.Server × Option SearchError
  index_document parse_layout now doc s =
      let text = doc.id ++ (b' ' ∷ doc.title ++ (b' ' ∷ doc.category)) in
      let name =
        if is_hot_data parse_layout now doc.created_at
        then docs_hot_collection_name
        else docs_cold_collection_name in
      m.insert s name doc.id text (generate_simple_embedding f text)

  -- The ids of the first result set.
  abbrev pub first_ids : List (List Bytes) → List Bytes
  first_ids [] = []
  first_ids (ids ∷ _) = ids

  abbrev pub ids_of : Result SearchError (List (List Bytes)) → Result SearchError (List Bytes)
  ids_of (err e) = err e
  ids_of (ok result) = ok (first_ids result)

  unfoldable pub search_users : m.Server → Bytes → ℕ → Result SearchError (List Bytes)
  unfolding calculate_hnsw_param
  search_users s keyword top_k =
      if bytes_beq keyword []
      then ok []
      else ids_of (
          m.search s users_hot_collection_name (generate_simple_embedding f keyword) top_k
            (hnsw_ef (calculate_hnsw_param keyword)))

  unfoldable pub search_documents_in_collection :
      m.Server → Bytes → List f.F → ℕ → ℕ → Bytes → Result SearchError (List Bytes)
  search_documents_in_collection s name embedding top_k param index_type =
      let unknown : Result SearchError (List Bytes) =
        err (ascii "unknown index type: " ++ index_type) in
      if bytes_beq index_type (ascii "HNSW")
      then ids_of (m.search s name embedding top_k (hnsw_ef param))
      else if bytes_beq index_type (ascii "IVF_SQ8")
      then ids_of (m.search s name embedding top_k (ivf_nprobe param))
      else unknown

  abbrev pub ids_or_none : Result SearchError (List Bytes) → List Bytes
  ids_or_none (err e) = []
  ids_or_none (ok ids) = ids

  abbrev pub hot_ids : m.Server → Bytes → ℕ → List Bytes
  hot_ids s keyword top_k = ids_or_none (
      search_documents_in_collection s users_hot_collection_name
        (generate_simple_embedding f keyword) top_k (calculate_hnsw_param keyword) (ascii "HNSW"))

  abbrev pub cold_ids : m.Server → Bytes → ℕ → List Bytes
  cold_ids s keyword top_k = ids_or_none (
      search_documents_in_collection s docs_cold_collection_name
        (generate_simple_embedding f keyword) top_k (calculate_nprobe keyword) (ascii "IVF_SQ8"))

  -- The hot results come first.
  unfoldable pub search_documents : m.Server → Bytes → ℕ → Result SearchError (List Bytes)
  unfolding search_documents_in_collection calculate_hnsw_param calculate_nprobe limited
  search_documents s keyword top_k =
      if bytes_beq keyword []
      then ok []
      else ok (limited top_k (hot_ids s keyword top_k ++ cold_ids s keyword top_k))

  -- The expression that selects one id.
  abbrev pub id_is : Bytes → Bytes
  id_is id = ascii "id == '" ++ (id ++ ascii "'")

  unfoldable pub search_delete_user : Bytes → m.Server → m.Server × Option SearchError
  search_delete_user id s = m.delete s users_hot_collection_name (id_is id)

  unfoldable pub search_delete_document : Bytes → m.Server → m.Server × Option SearchError
  search_delete_document id s =
      let s1 = (m.delete s docs_hot_collection_name (id_is id)).0 in
      ((m.delete s1 docs_cold_collection_name (id_is id)).0, none)
