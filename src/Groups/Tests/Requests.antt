-- ===== src/Groups/Tests/Requests.antt =====
-- Tests of requests to join: Cat asks, and Ann decides.
use etemsg_server.Base.{◌≡◌, refl, [], ◌∷◌, ok, dec_text, arith}
use etemsg_server.Groups.State.{JoinStatus, Groups}
use etemsg_server.Groups.Joining.{create_join_request, decide_join_request}
use etemsg_server.Groups.Requests.{IsKeyed}
use etemsg_server.Groups.Tests.{pair, request}

abbrev asked : Groups
asked = record pair { join_requests = record (request "r1" "cat") { created_at = 9 } ∷ [] }

cat_asks : create_join_request 9 pair (request "r1" "cat") ≡ ok asked
unfolding create_join_request dec_text
cat_asks = refl

pair-IsKeyed : IsKeyed pair
pair-IsKeyed = record { by_id = λ id. omega arith; undecided = λ gid applicant. omega arith }

abbrev denied : Groups
denied = record asked {
  join_requests =
      record (request "r1" "cat") {
        status = JoinStatus.denied;
        decided_by = "ann";
        decided_at = 10;
        created_at = 9;
      }
      ∷ [];
}

ann_denies : decide_join_request 10 asked "team" "r1" JoinStatus.denied "ann" ≡ ok denied
unfolding decide_join_request dec_text
ann_denies = refl
