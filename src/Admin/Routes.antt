-- ===== src/Admin/Routes.antt =====
-- cmd/admin/main.go: the API routes by path and method, and withJSON's answer to an error.
use novagate.Base.{
  ℕ, Bool, true, false, ◌==◌, Option, none, some, List, Result, ok, err, if◌then◌else◌,
}
use novagate.Protocol.Bytes.{Bytes}
use novagate.Admin.Env.{
  Env, World, Clock, Reply, HandlerError, Response, panicked, bad_json, not_marshalled, redis_error,
}
use novagate.Admin.Service.{CreateUserReq, CreateDocReq, PermissionReq, ListQuery}
use novagate.Admin.Service.Writes.{
  create_user, create_document, delete_user, delete_document, grant_permission, revoke_permission,
}
use novagate.Admin.Service.Reads.{list_users, list_documents, list_permissions, get_audit_logs}
pub mod Entries
pub mod Logged

-- A request by its path and method, with what its handler reads. Any other method of the first three
-- paths is not allowed; the audit log is sent whatever the method.
pub data Request : Type 0 where
  get_users get_documents : ListQuery → Request
  post_user : Option CreateUserReq → Request
  post_document : Option CreateDocReq → Request
  remove_user remove_document : Option Bytes → Request
  get_permissions : Bytes → Request
  post_permission remove_permission : Option PermissionReq → Request
  get_audit_log : Bytes → Request
  other_method : Request

-- 200 with a body, 500 with an error, or a connection that net/http closes after a panic.
pub data HttpAnswer : Type 0 where
  json_body : Response → HttpAnswer
  server_error : HandlerError → HttpAnswer
  method_not_allowed aborted : HttpAnswer

unfoldable pub with_json : Reply → HttpAnswer
with_json (ok r) = json_body r
with_json (err panicked) = aborted
with_json (err bad_json) = server_error bad_json
with_json (err not_marshalled) = server_error not_marshalled
with_json (err (redis_error e)) = server_error (redis_error e)

module _ (env : Env) where
  abbrev answered : Reply × World env → HttpAnswer × World env
  answered (r, w) = (with_json r, w)

  unfoldable pub serve : Clock → Request → World env → HttpAnswer × World env
  unfolding with_json
  serve clock (get_users q) w = (with_json (list_users env q w), w)
  serve clock (post_user req) w = answered (create_user env clock req w)
  serve clock (remove_user req) w = answered (delete_user env clock req w)
  serve clock (get_documents q) w = (with_json (list_documents env q w), w)
  serve clock (post_document req) w = answered (create_document env clock req w)
  serve clock (remove_document req) w = answered (delete_document env clock req w)
  serve clock (get_permissions tenant) w = (with_json (list_permissions env tenant w), w)
  serve clock (post_permission req) w = answered (grant_permission env clock req w)
  serve clock (remove_permission req) w = answered (revoke_permission env clock req w)
  serve clock (get_audit_log limit) w = (with_json (get_audit_logs env limit w), w)
  serve clock other_method w = (method_not_allowed, w)
