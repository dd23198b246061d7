-- ===== src/Groups/Requests.antt =====
-- Requests to join (store/group.go): one open request per applicant and group, decided once.
use etemsg_server.Base.{
  ℕ, ◌≤◌, String, false, ◌≡◌, inl, inr, refl, List, [], ◌∷◌, ok, err, arith, Option-cases,
}
use etemsg_server.Base.Table.{count_where, any_where, first, update, insert}
use etemsg_server.Base.Table.Rows.{first-update, first_found, first-append}
use etemsg_server.Base.Table.Counts.{count_where-insert_key, count_where-update}
use etemsg_server.Errors.{join_request_not_pending}
use etemsg_server.Groups.State.{JoinStatus, JoinRequest, Groups, is_pending}
use etemsg_server.Groups.Joining.{
  is_request, is_open_request, create_join_request, get_join_request, decide_join_request,
}

-- Each request id stands once, and each applicant has at most one open request per group.
pub record IsKeyed (db : Groups) : Type 0 where
  pub by_id : (id : String) → count_where (is_request id) db.join_requests ≤ 1
  pub undecided :
      (gid applicant : String) → count_where (is_open_request gid applicant) db.join_requests ≤ 1

create_passed :
    (now : ℕ) (db db' : Groups) (r : JoinRequest)
    → create_join_request now db r ≡ ok db'
    → (any_where (is_request r.request_id) db.join_requests ≡ false)
      × (any_where (is_open_request r.group_id r.applicant) db.join_requests ≡ false)
      × (db'.join_requests
          ≡ insert
              (record r {
                status = JoinStatus.pending;
                decided_by = "";
                decided_at = 0;
                created_at = now;
              })
              db.join_requests)
unfolding create_join_request
create_passed now db db' r h = (ground arith, ground arith, ground arith)

-- A new request keeps both, and can be read back as it was made, open and undecided.
pub create_join_request-IsKeyed :
    (now : ℕ) (db db' : Groups) (r : JoinRequest)
    → create_join_request now db r ≡ ok db'
    → IsKeyed db
    → IsKeyed db'
      × (get_join_request db' r.request_id
          ≡ ok (record r {
            status = JoinStatus.pending;
            decided_by = "";
            decided_at = 0;
            created_at = now;
          }))
unfolding create_join_request get_join_request
create_join_request-IsKeyed now db db' r h keyed =
    let row : JoinRequest = record r {
      status = JoinStatus.pending;
      decided_by = "";
      decided_at = 0;
      created_at = now;
    } in
    let (new, free, after) = create_passed now db db' r h in
    (
      record {
        by_id = λ id. rw after (
            count_where-insert_key (is_request id) (is_request r.request_id) row db.join_requests
              new (λ a y b. ground arith) (keyed.by_id id));
        undecided = λ gid applicant. rw after (
            count_where-insert_key (is_open_request gid applicant)
              (is_open_request r.group_id r.applicant) row db.join_requests free
              (λ a y b. ground arith) (keyed.undecided gid applicant));
      },
      rw after (ground (arith, first-append (is_request r.request_id) db.join_requests (row ∷ []))),
    )

never_opens :
    (now : ℕ) (id gid applicant by : String) (decision : JoinStatus) (rs : List JoinRequest)
    → is_pending decision ≡ false
    → count_where (is_open_request gid applicant) (
        update
          (is_request id)
          (λ r. record r { status = decision; decided_by = by; decided_at = now })
          rs)
      ≤ count_where (is_open_request gid applicant) rs
never_opens now id gid applicant by decision [] h = omega arith
never_opens now id gid applicant by decision (r ∷ rs) h =
    ground (arith, never_opens now id gid applicant by decision rs h)

-- A request is decided once: after an approval or a denial, every later decision on it is refused,
-- and it carries the first decision, by whom it was made and when.
pub decide_join_request_once :
    (now later : ℕ) (db db' : Groups) (gid id by by' : String) (decision other : JoinStatus)
    → decide_join_request now db gid id decision by ≡ ok db'
    → is_pending decision ≡ false
    → (decide_join_request later db' gid id other by' ≡ err join_request_not_pending)
      × ((r : JoinRequest) × (get_join_request db id ≡ ok r)
          × (get_join_request db' id
              ≡ ok (record r { status = decision; decided_by = by; decided_at = now })))
unfolding decide_join_request get_join_request
decide_join_request_once now later db db' gid id by by' decision other h final =
    elim (Option-cases (first (is_request id) db.join_requests)) [
      | inl missing ↦ absurd (ground arith)
      | inr (r, e) ↦
          let moved =
            first-update (is_request id) (is_request id)
              (λ s. record s { status = decision; decided_by = by; decided_at = now })
              db.join_requests {x = r} (λ s. refl) e in
          let found = first_found (is_request id) db.join_requests {x = r} e in
          (ground arith, (r, ground arith, ground arith))
    ]

-- A decision that closes keeps the keys, and opens no request.
pub decide_join_request-IsKeyed :
    (now : ℕ) (db db' : Groups) (gid id by : String) (decision : JoinStatus)
    → decide_join_request now db gid id decision by ≡ ok db'
    → is_pending decision ≡ false
    → IsKeyed db
    → IsKeyed db'
unfolding decide_join_request
decide_join_request-IsKeyed now db db' gid id by decision h final keyed =
    elim (Option-cases (first (is_request id) db.join_requests)) [
      | inl missing ↦ absurd (ground arith)
      | inr (r, e) ↦ record {
        by_id = λ i. ground (
          arith,
          keyed.by_id i,
          count_where-update (is_request id) (is_request i)
              (λ s. record s { status = decision; decided_by = by; decided_at = now })
              db.join_requests (λ s e. refl),
        );
        undecided = λ g a.
            ground (
              arith,
              keyed.undecided g a,
              never_opens now id g a by decision db.join_requests final,
            );
      }
    ]
