-- ===== src/Admin/Search/Routing.antt =====
-- search.go: where documents are indexed and searched.
use mathlib.Core.Path.{fun_ext}
use novagate.Base.{
  ℕ, ◌≤◌, ◌≡◌, ◌≢◌, refl, true, Option, List, [], ◌∷◌, ◌++◌, ok, length, length-take, ltb, arith,
  Bool-cases, inl, inr,
}
use novagate.Base.Key.{bytes_beq}
use novagate.Protocol.Bytes.{Bytes}
use novagate.Acl.Model.{Time}
use novagate.Admin.Search.Embedding.{Floats, generate_simple_embedding}
use novagate.Admin.Search.{
  Milvus, SearchParam, Layout, Document, is_hot_data, users_hot_collection_name,
  docs_hot_collection_name, docs_cold_collection_name,
}
use novagate.Admin.Search.Queries.{index_document, search_documents, limited, hot_ids, cold_ids}

length-limited : (top_k : ℕ) (ids : List Bytes) → length (limited top_k ids) ≤ top_k
unfolding limited
length-limited top_k ids = elim (Bool-cases (ltb top_k (length ids))) [
  | inl long ↦ rw (long, limited) (omega (arith, length-take top_k ids))
  | inr short ↦ rw (short, limited) (ground arith)
]

module _ (f : Floats) (m : Milvus f) where
  -- An insertion shows in no search of another collection.
  pub record IsMilvus : Type 0 where
    pub insert_elsewhere :
        (s : m.Server) (c other id text : Bytes) (v q : List f.F) (top_k : ℕ) (p : SearchParam)
        → c ≢ other
        → m.search (m.insert s c id text v).0 other q top_k p ≡ m.search s other q top_k p

  index_hot :
      (parse_layout : Layout → Bytes → Option Time) (now : Time) (doc : Document) (s : m.Server)
      → is_hot_data parse_layout now doc.created_at ≡ true
      → (v : List f.F) × (index_document f m parse_layout now doc s
          ≡ m.insert s docs_hot_collection_name doc.id
              (doc.id ++ (b' ' ∷ doc.title ++ (b' ' ∷ doc.category)))
              v)
  unfolding index_document
  index_hot parse_layout now doc s hot = (
    generate_simple_embedding f (doc.id ++ (b' ' ∷ doc.title ++ (b' ' ∷ doc.category))),
    rw (hot, index_document),
  )

  -- Two servers that answer alike in the two collections that are searched.
  search_documents_alike :
      (s t : m.Server) (keyword : Bytes) (top_k : ℕ)
      → m.search s users_hot_collection_name ≡ m.search t users_hot_collection_name
      → m.search s docs_cold_collection_name ≡ m.search t docs_cold_collection_name
      → search_documents f m s keyword top_k ≡ search_documents f m t keyword top_k
  unfolding search_documents
  search_documents_alike s t keyword top_k hot cold = rw (hot, search_documents) (rw cold refl)

  -- A document that counts as hot when it is indexed changes no result of SearchDocuments, whatever
  -- the keyword, if an insertion shows in no search of another collection: the collection of the hot
  -- documents is written and never searched.
  pub hot_document_not_found :
      (law : IsMilvus) (parse_layout : Layout → Bytes → Option Time) (now : Time) (doc : Document)
      (s : m.Server) (keyword : Bytes) (top_k : ℕ)
      → is_hot_data parse_layout now doc.created_at ≡ true
      → search_documents f m (index_document f m parse_layout now doc s).0 keyword top_k
        ≡ search_documents f m s keyword top_k
  hot_document_not_found law parse_layout now doc s keyword top_k hot =
      let (v, e) = index_hot parse_layout now doc s hot in
      let text = doc.id ++ (b' ' ∷ doc.title ++ (b' ' ∷ doc.category)) in
      let apart = λ (c : Bytes) (ne : docs_hot_collection_name ≢ c). fun_ext (λ q. fun_ext (λ k.
        fun_ext (λ p. law.insert_elsewhere s docs_hot_collection_name c doc.id text v q k p ne))) in
      rw e (
        search_documents_alike (m.insert s docs_hot_collection_name doc.id text v).0 s keyword top_k
          (apart users_hot_collection_name (λ p. cc)) (apart docs_cold_collection_name (λ p. cc)))

  -- SearchDocuments never fails, and gives at most as many ids as it was asked for, also where both
  -- collections give that many.
  pub search_documents_bound :
      (s : m.Server) (keyword : Bytes) (top_k : ℕ)
      → (ids : List Bytes) × (search_documents f m s keyword top_k ≡ ok ids) × (length ids ≤ top_k)
  unfolding search_documents
  search_documents_bound s keyword top_k = elim (Bool-cases (bytes_beq keyword [])) [
    | inl no_keyword ↦ ([], rw (no_keyword, search_documents), omega arith)
    | inr some_keyword ↦ (
      limited top_k (hot_ids f m s keyword top_k ++ cold_ids f m s keyword top_k),
      rw (some_keyword, search_documents),
      length-limited top_k (hot_ids f m s keyword top_k ++ cold_ids f m s keyword top_k),
    )
  ]
