-- ===== src/Zdo/Descriptors/Texts.antt =====
-- The descriptors that are read are those that the device wrote.
use kappaio.Common.{
  ℕ, ◌+◌, ◌*◌, ◌/◌, ◌%◌, ◌<◌, ◌≡◌, refl, sym, ap, ap₂, ◌∙◌, append_assoc, List, [], ◌∷◌, ◌++◌,
  get_or, length, bit_and, ◌==◌, ==_iff, arith,
}
use kappaio.Common.Words.{Bytes, to_le, from_le, to_le-from_le}
use kappaio.Common.Finite.{for_all_holds}
use kappaio.Aps.Message.{proxy_rd, copy_out}
use kappaio.Aps.Message.Send.{get_or-IsByte, length-copy_out, copy_out-Bytes}
use kappaio.Aps.Model.{NodeDescriptor, SimpleDescriptor}
use kappaio.Zdo.Descriptors.{
  node_desc_req_apdu_process, simple_desc_req_apdu_process, cluster_list, read_clusters,
}

-- The bytes of a node descriptor, as the ZigBee specification lays them out.
abbrev pub node_descriptor_bytes : NodeDescriptor → List ℕ
node_descriptor_bytes n =
    (n.logical_type + 8 * n.complex_desc_avail + 16 * n.user_desc_avail + 32 * n.reserved)
    ∷ (n.aps_flags + 8 * n.frequency_band)
    ∷ n.capability_flags
    ∷ (to_le 2 n.manufacturer_code
        ++ (n.max_buffer_size
            ∷ (to_le 2 n.max_in_transfer_size
                ++ (to_le 2 n.server_mask
                    ++ (to_le 2 n.max_out_transfer_size ++ (n.descriptor_capability ∷ []))))))

abbrev flags : ℕ → ℕ
flags b = bit_and b 7 + 8 * (bit_and b 8 / 8) + 16 * (bit_and b 16 / 16) + 32 * (bit_and b 224 / 32)

flags_lem : (b : ℕ) → b < 256 → flags b ≡ b
flags_lem b h = (==_iff (flags b) b).0 (for_all_holds 256 b (λ k. flags k == k) refl h)

bands : (b : ℕ) → b < 256 → bit_and b 7 + 8 * (bit_and b 248 / 8) ≡ b
bands b h =
    (==_iff (bit_and b 7 + 8 * (bit_and b 248 / 8)) b).0
      (for_all_holds 256 b (λ k. bit_and k 7 + 8 * (bit_and k 248 / 8) == k) refl h)

word : (d : List ℕ) (off : ℕ) → Bytes d → to_le 2 (proxy_rd d off 2) ≡ copy_out d off 2
unfolding proxy_rd
word d off h =
    ap (λ k. to_le k (from_le (copy_out d off 2))) (sym (length-copy_out d off 2))
    ∙ to_le-from_le (copy_out d off 2) (copy_out-Bytes d off 2 h)

-- The node descriptor that is read from an answer stands for the first 13 bytes of the answer's descriptor:
-- written in the layout of the ZigBee specification it is these bytes again.
pub node_descriptor_bytes-node_desc :
    (apdu : List ℕ)
    → Bytes apdu
    → node_descriptor_bytes (node_desc_req_apdu_process apdu) ≡ copy_out apdu 0 13
unfolding node_desc_req_apdu_process copy_out
node_descriptor_bytes-node_desc apdu h =
    ap₂ ◌∷◌ (flags_lem (get_or apdu 0 0) (get_or-IsByte apdu 0 h)) (
      ap₂ ◌∷◌ (bands (get_or apdu 1 0) (get_or-IsByte apdu 1 h)) (
        ap (λ bs. get_or apdu 2 0 ∷ bs)
          (ap₂ ◌++◌ (word apdu 3 h) (
            ap (λ bs. get_or apdu 5 0 ∷ bs)
              (ap₂ ◌++◌ (word apdu 6 h)
                (ap₂ ◌++◌ (word apdu 8 h) (ap₂ ◌++◌ (word apdu 10 h) refl)))))))

-- The bytes of a simple descriptor; a list of clusters stands behind its length.
abbrev id_bytes : List ℕ → List ℕ
id_bytes [] = []
id_bytes (i ∷ is) = i % 256 ∷ i / 256 ∷ id_bytes is

abbrev pub simple_descriptor_bytes : SimpleDescriptor → List ℕ
simple_descriptor_bytes s =
    s.endpoint_addr
    ∷ s.profile_id % 256
    ∷ s.profile_id / 256
    ∷ s.device_id % 256
    ∷ s.device_id / 256
    ∷ s.device_version
    ∷ ((length s.incluster_list ∷ id_bytes s.incluster_list)
        ++ (length s.outcluster_list ∷ id_bytes s.outcluster_list))

read_clusters-id_bytes :
    (ids rest : List ℕ) → read_clusters (length ids) (id_bytes ids ++ rest) ≡ (ids, rest)
unfolding read_clusters proxy_rd copy_out from_le
read_clusters-id_bytes [] rest = refl
read_clusters-id_bytes (i ∷ ids) rest =
    ap₂ {C = List ℕ × List ℕ} (λ n r. (n ∷ r.0, r.1)) whole (read_clusters-id_bytes ids rest)
  where
    whole : i % 256 + 256 * (i / 256 + 256 * 0) ≡ i
    whole = omega arith

cluster_list-id_bytes :
    (ids rest : List ℕ) → cluster_list ((length ids ∷ id_bytes ids) ++ rest) ≡ (ids, rest)
unfolding cluster_list
cluster_list-id_bytes ids rest = read_clusters-id_bytes ids rest

-- The simple descriptor that is read from an answer that begins with the bytes of a descriptor is that descriptor.
pub simple_desc-simple_descriptor_bytes :
    (s : SimpleDescriptor) (rest : List ℕ)
    → simple_desc_req_apdu_process (simple_descriptor_bytes s ++ rest) ≡ s
unfolding simple_desc_req_apdu_process proxy_rd copy_out from_le
simple_desc-simple_descriptor_bytes s rest =
    rw
      (
        append_assoc (length s.incluster_list ∷ id_bytes s.incluster_list)
            (length s.outcluster_list ∷ id_bytes s.outcluster_list) rest,
        cluster_list-id_bytes s.incluster_list
            ((length s.outcluster_list ∷ id_bytes s.outcluster_list) ++ rest),
        cluster_list-id_bytes s.outcluster_list rest,
      )
      (ap₂ (λ p d. record s { profile_id = p; device_id = d }) (halves s.profile_id)
        (halves s.device_id))
  where
    halves : (v : ℕ) → v % 256 + 256 * (v / 256 + 256 * 0) ≡ v
    halves v = omega arith
