-- ===== src/Zdo/Recover/Bytes.antt =====
-- The parsers read the first bytes only: what the archive keeps of an answer is enough, whatever is behind it.
use kappaio.Common.{
  ℕ, zero, suc, ◌+◌, ◌*◌, ◌<◌, ◌≤◌, ◌≡◌, refl, sym, ap, ap₂, ◌∙◌, List, [], ◌∷◌, ◌++◌, get_or, drop,
  get_or-drop, get_or-append_left, arith,
}
use kappaio.Common.Words.{from_le}
use kappaio.Aps.Message.{copy_out, proxy_rd}
use kappaio.Aps.Message.Send.{length-copy_out}
use kappaio.Aps.Message.Incoming.{get_or-copy_out}
use kappaio.Aps.Model.{Endpoint, endpoints_at}
use kappaio.Zdo.Descriptors.{
  node_desc_req_apdu_process, simple_desc_req_apdu_process, active_ep_req_apdu_process,
  add_endpoints, read_clusters, cluster_list,
}

-- The first bytes are the same.
abbrev pub Agree : ℕ → List ℕ → List ℕ → Type 0
Agree n p q = (i : ℕ) → i < n → get_or p i 0 ≡ get_or q i 0

pub copy-Agree : (d g : List ℕ) (n : ℕ) → Agree n (copy_out d 0 n ++ g) d
copy-Agree d g n i h =
    get_or-append_left (copy_out d 0 n) g i 0 (omega (arith, length-copy_out d 0 n))
    ∙ get_or-copy_out d 0 n i h
    ∙ ap (λ k. get_or d k 0) (omega arith)

Agree-drop : (m n : ℕ) (p q : List ℕ) → Agree (m + n) p q → Agree n (drop m p) (drop m q)
Agree-drop m n p q h i small =
    get_or-drop m p i 0 ∙ h (m + i) (omega arith) ∙ sym (get_or-drop m q i 0)

Agree-le : (m n : ℕ) (p q : List ℕ) → m ≤ n → Agree n p q → Agree m p q
Agree-le m n p q le h i small = h i (omega arith)

word-Agree :
    (n off : ℕ) (p q : List ℕ) → Agree n p q → off + 2 ≤ n → proxy_rd p off 2 ≡ proxy_rd q off 2
unfolding proxy_rd copy_out
word-Agree n off p q h small =
    ap₂ (λ a b. from_le (a ∷ b ∷ [])) (h off (omega arith)) (h (off + 1) (omega arith))

pub node_desc-Agree :
    (p q : List ℕ) → Agree 13 p q → node_desc_req_apdu_process p ≡ node_desc_req_apdu_process q
unfolding node_desc_req_apdu_process
node_desc-Agree p q h = rw (
  h 0 (omega arith),
  h 1 (omega arith),
  h 2 (omega arith),
  h 5 (omega arith),
  h 12 (omega arith),
  word-Agree 13 3 p q h (omega arith),
  word-Agree 13 6 p q h (omega arith),
  word-Agree 13 8 p q h (omega arith),
  word-Agree 13 10 p q h (omega arith),
)

add_endpoints-Agree :
    (n : ℕ) (p q : List ℕ) (eps : List Endpoint)
    → Agree n p q
    → add_endpoints n p eps ≡ add_endpoints n q eps
unfolding add_endpoints
add_endpoints-Agree zero p q eps h = refl
add_endpoints-Agree (suc n) p q eps h =
    ap (λ i. add_endpoints n (drop 1 p) (endpoints_at i eps).0) (h 0 (omega arith))
    ∙ add_endpoints-Agree n (drop 1 p) (drop 1 q) (endpoints_at (get_or q 0 0) eps).0
        (Agree-drop 1 n p q (Agree-le (1 + n) (suc n) p q (omega arith) h))

pub active_ep-Agree :
    (p q : List ℕ) (eps : List Endpoint)
    → Agree (get_or q 0 0 + 1) p q
    → active_ep_req_apdu_process p eps ≡ active_ep_req_apdu_process q eps
unfolding active_ep_req_apdu_process
active_ep-Agree p q eps h =
    ap (λ n. add_endpoints n (drop 1 p) eps) (h 0 (omega arith))
    ∙ add_endpoints-Agree (get_or q 0 0) (drop 1 p) (drop 1 q) eps (
        Agree-drop 1 (get_or q 0 0) p q
          (Agree-le (1 + get_or q 0 0) (get_or q 0 0 + 1) p q (omega arith) h))

read_clusters-Agree :
    (n m : ℕ) (p q : List ℕ)
    → Agree (n * 2 + m) p q
    → ((read_clusters n p).0 ≡ (read_clusters n q).0)
      × Agree m (read_clusters n p).1 (read_clusters n q).1
unfolding read_clusters
read_clusters-Agree zero m p q h = (refl, Agree-le m (zero * 2 + m) p q (omega arith) h)
read_clusters-Agree (suc n) m p q h =
    let rest = read_clusters-Agree n m (drop 2 p) (drop 2 q) (
      Agree-drop 2 (n * 2 + m) p q
        (Agree-le (2 + (n * 2 + m)) (suc n * 2 + m) p q (omega arith) h)) in
    (ap₂ ◌∷◌ (word-Agree (suc n * 2 + m) 0 p q h (omega arith)) rest.0, rest.1)

cluster_list-Agree :
    (m : ℕ) (p q : List ℕ)
    → Agree (1 + (get_or q 0 0 * 2 + m)) p q
    → ((cluster_list p).0 ≡ (cluster_list q).0) × Agree m (cluster_list p).1 (cluster_list q).1
unfolding cluster_list
cluster_list-Agree m p q h = rw (h 0 (omega arith)) (
    read_clusters-Agree (get_or q 0 0) m (drop 1 p) (drop 1 q)
      (Agree-drop 1 (get_or q 0 0 * 2 + m) p q h))

-- The bytes of a simple descriptor with its two lists.
abbrev pub descriptor_size : List ℕ → ℕ
descriptor_size apdu =
    6
    + (1
        + (get_or (drop 6 apdu) 0 0 * 2
            + (1 + (get_or (cluster_list (drop 6 apdu)).1 0 0 * 2 + 0))))

pub simple_desc-Agree :
    (p q : List ℕ)
    → Agree (descriptor_size q) p q
    → simple_desc_req_apdu_process p ≡ simple_desc_req_apdu_process q
unfolding simple_desc_req_apdu_process
simple_desc-Agree p q h =
    let ins =
      cluster_list-Agree (1 + (get_or (cluster_list (drop 6 q)).1 0 0 * 2 + 0)) (drop 6 p)
        (drop 6 q)
        (Agree-drop 6
          (1 + (get_or (drop 6 q) 0 0 * 2 + (1 + (get_or (cluster_list (drop 6 q)).1 0 0 * 2 + 0))))
          p q h) in
    let outs = cluster_list-Agree 0 (cluster_list (drop 6 p)).1 (cluster_list (drop 6 q)).1 ins.1 in
    rw (
      h 0 (omega arith),
      h 5 (omega arith),
      word-Agree (descriptor_size q) 1 p q h (omega arith),
      word-Agree (descriptor_size q) 3 p q h (omega arith),
      ins.0,
      outs.0,
    )
