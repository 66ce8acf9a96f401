-- ===== src/Zdo/Descriptors/Active.antt =====
-- The endpoints of a device after an answer with its active endpoints.
use kappaio.Common.{ℕ, zero, suc, ◌≡◌, refl, ap, ◌∙◌, Bool, List, get_or, drop, ◌==◌, ◌||◌, arith}
use kappaio.Aps.Model.{Endpoint, new_endpoint_of, endpoints_at}
use kappaio.Aps.Model.Find.{is_some, is_some-update, lookup, lookup-reference, or_new}
use kappaio.Aps.Model.Endpoints.{by_endpoint, Distinct, endpoints_at-Distinct}
use kappaio.Aps.Peer.{has}
use kappaio.Aps.Message.{copy_out}
use kappaio.Aps.Message.Send.{copy_out-drop}
use kappaio.Zdo.Descriptors.{add_endpoints, active_ep_req_apdu_process}

swap : (a b c : Bool) → (a || (b || c)) ≡ ((b || a) || c)
swap a b c = ground arith

listed :
    (n k : ℕ) (p : List ℕ) (eps : List Endpoint)
    → is_some (lookup by_endpoint k (add_endpoints n p eps))
      ≡ (has k (copy_out p 0 n) || is_some (lookup by_endpoint k eps))
unfolding add_endpoints endpoints_at has copy_out
listed zero k p eps = refl
listed (suc n) k p eps =
    listed n k (drop 1 p) (endpoints_at (get_or p 0 0) eps).0
    ∙ ap (λ b. has k (copy_out (drop 1 p) 0 n) || b)
        (ap is_some (
            lookup-reference by_endpoint (new_endpoint_of (get_or p 0 0)) (get_or p 0 0) eps refl k)
          ∙ is_some-update (get_or p 0 0) k
              (or_new (new_endpoint_of (get_or p 0 0)) (lookup by_endpoint (get_or p 0 0) eps))
              (λ k. lookup by_endpoint k eps))
    ∙ swap (has k (copy_out (drop 1 p) 0 n)) (k == get_or p 0 0)
        (is_some (lookup by_endpoint k eps))
    ∙ ap (λ bs. ((k == get_or p 0 0) || has k bs) || is_some (lookup by_endpoint k eps))
        (copy_out-drop 1 p 0 n)

added-Distinct :
    (n : ℕ) (p : List ℕ) (eps : List Endpoint)
    → Distinct by_endpoint eps
    → Distinct by_endpoint (add_endpoints n p eps)
unfolding add_endpoints
added-Distinct zero p eps h = h
added-Distinct (suc n) p eps h =
    added-Distinct n (drop 1 p) (endpoints_at (get_or p 0 0) eps).0
      (endpoints_at-Distinct (get_or p 0 0) eps h)

-- After an answer with the active endpoints, a device has the endpoints that it had and those that the answer
-- lists, as many as its count says; if no two had the same id, no two have.
pub active_ep-listed :
    (apdu : List ℕ) (eps : List Endpoint)
    → Distinct by_endpoint eps
    → Distinct by_endpoint (active_ep_req_apdu_process apdu eps)
      × ((k : ℕ)
          → is_some (lookup by_endpoint k (active_ep_req_apdu_process apdu eps))
            ≡ (has k (copy_out apdu 1 (get_or apdu 0 0)) || is_some (lookup by_endpoint k eps)))
unfolding active_ep_req_apdu_process
active_ep-listed apdu eps h = (
  added-Distinct (get_or apdu 0 0) (drop 1 apdu) eps h,
  λ k.
      listed (get_or apdu 0 0) k (drop 1 apdu) eps
      ∙ ap (λ bs. has k bs || is_some (lookup by_endpoint k eps))
          (copy_out-drop 1 apdu 0 (get_or apdu 0 0)),
)
