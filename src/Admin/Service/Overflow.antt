-- ===== src/Admin/Service/Overflow.antt =====
-- service.go: pages whose start overflows.
use novagate.Base.{ℕ, suc, ◌*◌, ◌%◌, ◌^◌, ◌≤◌, ◌≡◌, none, List, err}
use novagate.Base.Key.{bytes_key}
use novagate.Admin.Env.{Env, World, panicked}
use novagate.Admin.Pages.{parse_pagination, page_of}
use novagate.Admin.Pages.Cover.{paginated_overflows}
use novagate.Admin.Service.{ListQuery}
use novagate.Admin.Service.Reads.{list_users, list_documents, found_users, found_documents}

no_page :
    {A : Type 0} (xs : List A) (p size : ℕ)
    → 2 ^ 63 ≤ (p * size) % 2 ^ 64
    → page_of xs (suc p, size) ≡ none
unfolding page_of
no_page xs p size over = rw (paginated_overflows xs p size over, page_of)

-- Where the page's start overflows 64 bits into a negative number, listing users and listing documents
-- panic, whatever is stored.
pub list_panics :
    (env : Env) (w : World env) (q : ListQuery) (p : ℕ)
    → (parse_pagination q.page q.page_size).0 ≡ suc p
    → 2 ^ 63 ≤ (p * (parse_pagination q.page q.page_size).1) % 2 ^ 64
    → (list_users env q w ≡ err panicked) × (list_documents env q w ≡ err panicked)
unfolding list_users list_documents
list_panics env w q p first over =
    let size = (parse_pagination q.page q.page_size).1 in
    (
      rw (first, no_page (found_users env w q.keyword) p size over),
      rw (first, no_page (found_documents env w q.keyword) p size over),
    )
