-- ===== src/Admin/Env.antt =====
-- What internal/admin takes from outside: Redis, Milvus, encoding/json, strings.ToLower and the times.
use novagate.Base.{ℕ, Option, List, Result}
use novagate.Base.Int.{ℤ}
use novagate.Protocol.Bytes.{Bytes}
use novagate.Acl.Model.{Time}
use novagate.Acl.RedisServer.{RedisError}
use novagate.Admin.Redis.{Redis}
use novagate.Admin.Search.Embedding.{Floats}
use novagate.Admin.Search.{Milvus, User, Document, Layout}

pub record AuditLog : Type 0 where
  pub id : ℕ
  pub action : Bytes
  pub target : Bytes
  pub message : Bytes
  pub timestamp : Bytes

-- json.Marshal and json.Unmarshal of the three types.
pub record Json : Type 0 where
  pub marshal_user : User → Option Bytes
  pub unmarshal_user : Bytes → Option User
  pub marshal_document : Document → Option Bytes
  pub unmarshal_document : Bytes → Option Document
  pub marshal_log : AuditLog → Option Bytes
  pub unmarshal_log : Bytes → Option AuditLog

pub record Env : Type 1 where
  pub redis : Redis
  pub floats : Floats
  pub milvus : Milvus floats
  pub json : Json
  pub to_lower : Bytes → Bytes
  pub parse_layout : Layout → Bytes → Option Time

-- Service: its two servers, where a nil search service is none.
pub record World (env : Env) : Type 0 where
  pub redis : env.redis.Server
  pub search : Option env.milvus.Server

-- What a handler reads of the clock: time.Now() as RFC 3339, in UTC with nanoseconds, and as an instant.
pub record Clock : Type 0 where
  pub created : Bytes
  pub logged : Bytes
  pub instant : Time

pub data HandlerError : Type 0 where
  bad_json not_marshalled panicked : HandlerError
  redis_error : RedisError → HandlerError

pub record Permission : Type 0 where
  pub tenant_id : Bytes
  pub user_id : Bytes
  pub doc_ids : List Bytes
  pub documents : List Document

pub record Page (A : Type 0) : Type 0 where
  pub items : List A
  pub page : ℕ
  pub page_size : ℕ
  pub total : ℕ
  pub total_page : ℕ

pub data Payload : Type 0 where
  no_data : Payload
  one_user : User → Payload
  one_document : Document → Payload
  user_page : Page User → Payload
  document_page : Page Document → Payload
  permissions : List Permission → Payload
  audit_logs : ℕ → ℤ → List AuditLog → Payload

-- The JSON body; the status is 200 whatever the code.
pub record Response : Type 0 where
  pub code : ℕ
  pub message : Bytes
  pub payload : Payload

abbrev pub Reply : Type 0
Reply = Result HandlerError Response
