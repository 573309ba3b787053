-- ===== src/Admin/Search.antt =====
-- internal/admin/search.go: users and documents in Milvus, by vectors. The Milvus client, float32 and
-- time.Parse are parameters; a result set is its ids in order.
pub mod Collections
pub mod Queries
pub mod Embedding
pub mod Routing
use novagate.Base.{
  ℕ, ◌+◌, ◌*◌, ◌≡◌, Bool, true, false, not, Option, none, some, List, [], ◌∷◌, ◌++◌, Result, ok,
  err, leb, ltb, ◌==◌, length, take, if◌then◌else◌,
}
use novagate.Base.Int.{ℤ, pos, ◌-ℤ◌, ltb_ℤ}
use novagate.Base.Key.{bytes_beq}
use novagate.Protocol.Bytes.{Bytes}
use novagate.Protocol.Mapper.Text.{trim_space}
use novagate.Server.Registry.{ascii}
use novagate.Acl.Model.{Time, nanos}
use novagate.Admin.Search.Embedding.{Floats, generate_simple_embedding, vector_dim}

abbrev pub users_hot_collection_name : Bytes
users_hot_collection_name = ascii "admin_users_hot"

abbrev pub docs_hot_collection_name : Bytes
docs_hot_collection_name = ascii "admin_documents_hot"

abbrev pub docs_cold_collection_name : Bytes
docs_cold_collection_name = ascii "admin_documents_cold"

abbrev pub hot_data_threshold_days : ℕ
hot_data_threshold_days = 7

abbrev pub SearchError : Type 0
SearchError = Bytes

-- entity.Field: VarChar with its greatest length, or a vector with its dimension.
pub data Field : Type 0 where
  var_char : (name : Bytes) (primary_key : Bool) (max_length : ℕ) → Field
  float_vector : (name : Bytes) (dim : ℕ) → Field

pub record Schema : Type 0 where
  pub collection_name : Bytes
  pub description : Bytes
  pub fields : List Field

-- An index by the L2 distance, and the parameter of a search in it.
pub data Index : Type 0 where
  hnsw : (m ef_construction : ℕ) → Index
  ivf_sq8 : (nlist : ℕ) → Index

pub data SearchParam : Type 0 where
  hnsw_ef ivf_nprobe : ℕ → SearchParam

-- What the Milvus client answers; a write leaves a server and an error.
pub record Milvus (f : Floats) : Type 1 where
  pub Server : Type 0
  pub has_collection : Server → Bytes → Result SearchError Bool
  pub create_collection : Server → Schema → Server × Option SearchError
  pub new_index : Index → Option SearchError
  pub create_index : Server → Bytes → Index → Server × Option SearchError
  pub load_collection : Server → Bytes → Server × Option SearchError
  pub insert : Server → Bytes → Bytes → Bytes → List f.F → Server × Option SearchError
  pub search : Server → Bytes → List f.F → ℕ → SearchParam → Result SearchError (List (List Bytes))
  pub delete : Server → Bytes → Bytes → Server × Option SearchError

-- Layouts of time.Parse.
pub data Layout : Type 0 where
  rfc3339 rfc3339_nano date_time : Layout

pub record User : Type 0 where
  pub id : Bytes
  pub name : Bytes
  pub email : Bytes
  pub created_at : Bytes

pub record Document : Type 0 where
  pub id : Bytes
  pub title : Bytes
  pub category : Bytes
  pub owner_id : Bytes
  pub created_at : Bytes

-- A step after one that went well.
abbrev pub then_do {ℓ} :
    {S : Type ℓ} → S × Option SearchError → (S → S × Option SearchError) → S × Option SearchError
then_do (s, some e) next = (s, some e)
then_do (s, none) next = next s

abbrev pub collection_fields : List Field
collection_fields =
    var_char (ascii "id") true 100
    ∷ var_char (ascii "text") false 1000
    ∷ float_vector (ascii "embedding") vector_dim
    ∷ []

-- by the bytes of the keyword
unfoldable pub calculate_hnsw_param : Bytes → ℕ
calculate_hnsw_param keyword =
    let n = length keyword in
    if n == 0 then 50 else if leb n 3 then 20 else if leb n 8 then 30 else 50

unfoldable pub calculate_nprobe : Bytes → ℕ
calculate_nprobe keyword =
    let n = length (trim_space keyword) in if leb n 3 then 4 else if leb n 10 then 8 else 16

module _ (parse_layout : Layout → Bytes → Option Time) where
  unfoldable pub parse_time : Bytes → Option Time
  parse_time text = elim (parse_layout rfc3339 text) [
    | some t ↦ some t
    | none ↦ elim (parse_layout rfc3339_nano text) [
      | some t ↦ some t
      | none ↦ parse_layout date_time text
    ]
  ]

  -- time.Since is limited to int64, which changes no comparison with seven days.
  unfoldable pub is_hot_data : Time → Bytes → Bool
  unfolding parse_time
  is_hot_data now created_at =
      if bytes_beq created_at [] then true else elim (parse_time created_at) [
        | none ↦ true
        | some t ↦ ltb_ℤ (pos now -ℤ pos t) (pos (hot_data_threshold_days * 24 * 3600 * nanos))
      ]
