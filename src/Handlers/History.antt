-- ===== src/Handlers/History.antt =====
-- Histories of requests to http_groups.go, in the order in which they are served.
use etemsg_server.Auth.Signed.{SignedRequest}
use etemsg_server.Handlers.Signing.{signed_request}
use etemsg_server.Base.{some, ok, String, List, [], ◌∷◌, ◌≡◌, refl, ◌∙◌, ◌⊎◌}
use etemsg_server.Session.Invariant.{IsValid}
use etemsg_server.Handlers.Server.{Server, Env}
use etemsg_server.Handlers.Safe.{IsFine}
use etemsg_server.Handlers.Safety.{serve-IsSafe}
use etemsg_server.Handlers.Guards.{IsKept, IsAccepted}
use etemsg_server.Handlers.Authorised.{serve_by}
use etemsg_server.Handlers.Statements.{IsConsistent}
use etemsg_server.Handlers.Consistency.{serve-IsKeeping}
use etemsg_server.Handlers.Routing.{Method, Endpoint, route}
use etemsg_server.Handlers.Serving.{Params, serve}

pub record Request : Type 0 where
  pub env : Env
  pub params : Params
  pub method : Method
  pub path : String

unfoldable pub run_requests : Server → List Request → Server
run_requests s [] = s
run_requests s (r ∷ rs) = run_requests (serve r.env r.params r.method r.path s).1 rs

-- A request changes the groups or the sessions only if its method and path name an endpoint and the
-- request carries a signature by its user's registered key, over just the fields that this endpoint
-- asks for, its timestamp and its nonce, with the timestamp in the window and the nonce not in use.
pub serve_guarded :
    (env : Env) (p : Params) (method : Method) (path : String) (s : Server)
    → IsKept s (serve env p method path s).1
      ⊎ ((e : Endpoint) × (c : SignedRequest) × (route method path ≡ ok e)
          × (signed_request p e ≡ some c)
          × IsAccepted env s c)
unfolding serve
serve_guarded env p method path s = serve_by env p s (route method path)

-- From a valid session manager every request is answered or refused, without a panic, and leaves a
-- valid session manager and the accounts untouched.
pub serve_safe :
    (env : Env) (p : Params) (method : Method) (path : String) (s : Server)
    → IsValid s.session
    → IsFine s (serve env p method path s)
serve_safe env p method path s v = (serve-IsSafe env p method path).at s v

-- Whatever requests come in, the sessions stay valid, no epoch of a group gets a second Commit,
-- message numbers and ids and request ids stay unique, and no applicant gets a second open request.
pub run_requests-IsConsistent :
    (rs : List Request) (s : Server)
    → IsValid s.session
    → IsConsistent s.groups
    → IsValid (run_requests s rs).session
      × IsConsistent (run_requests s rs).groups
      × ((run_requests s rs).accounts ≡ s.accounts)
unfolding run_requests
run_requests-IsConsistent [] s v c = (v, c, refl)
run_requests-IsConsistent (r ∷ rs) s v c =
    let fine = serve_safe r.env r.params r.method r.path s v in
    let consistent = (serve-IsKeeping r.env r.params r.method r.path).at s c in
    let (valid, kept, same) = run_requests-IsConsistent rs _ fine.valid consistent in
    (valid, kept, same ∙ fine.kept)
