-- ===== src/Recovery/DevicePath/Walk.antt =====
-- What the walk over a device path measures.
use odp_platform_common.Common.{
  ℕ, zero, suc, ◌+◌, ◌*◌, ◌/◌, ◌%◌, ◌^◌, ◌≤◌, ◌<◌, true, false, List, [], ◌∷◌, ◌++◌, length,
  length-append, drop, ltb, ◌==◌, ==_iff, ◌≡◌, ◌≢◌, ◌⊎◌, ◌↔◌, refl, sym, ap, ◌∙◌, arith, Bool-cases,
  inl, inr,
}
use odp_platform_common.Recovery.DevicePath.{
  end_hdr, device_path_max_bytes, node_length, is_end_entire, walk, device_path_size,
  encode_node_header, unit_bytes, build_file_path_node,
}

-- A device path of this many bytes: nodes of at least four bytes, each as long as its header says, up to
-- the first node that ends the path, of four bytes.
pub data Spans : List ℕ → ℕ → Type 0 where
  ends : {dp : List ℕ} → is_end_entire dp ≡ true → node_length dp ≡ 4 → Spans dp 4
  node :
      {dp : List ℕ} {n size : ℕ}
      → is_end_entire dp ≡ false
      → 4 ≤ node_length dp
      → size ≡ node_length dp + n
      → Spans (drop (node_length dp) dp) n
      → Spans dp size

Spans-least : {dp : List ℕ} {n : ℕ} → Spans dp n → 4 ≤ n
Spans-least (ends e l) = omega arith
Spans-least (node e l s rest) = omega (arith, Spans-least rest)

-- A round of the walk that does not give up.
walk_round :
    (fuel consumed : ℕ) (dp : List ℕ) (total : ℕ)
    → walk (suc fuel) consumed dp ≡ total
    → total ≢ 0
    → (4 ≤ node_length dp)
      × (consumed + node_length dp ≤ 64 * 1024)
      × (((is_end_entire dp ≡ true) × (node_length dp ≡ 4) × (total ≡ consumed + node_length dp))
          ⊎ ((is_end_entire dp ≡ false)
              × (walk fuel (consumed + node_length dp) (drop (node_length dp) dp) ≡ total)))
unfolding walk
walk_round fuel consumed dp total h some = (
  ground arith,
  ground arith,
  elim (Bool-cases (is_end_entire dp)) [
    | inl e ↦ inl (e, ground arith, ground arith)
    | inr e ↦ inr (e, ground arith)
  ],
)

walk-Spans :
    (fuel consumed : ℕ) (dp : List ℕ) (total : ℕ)
    → walk fuel consumed dp ≡ total
    → total ≢ 0
    → (n : ℕ) × Spans dp n × (total ≡ consumed + n) × (total ≤ 64 * 1024)
unfolding walk
walk-Spans zero consumed dp total h some = absurd (some (sym h))
walk-Spans (suc fuel) consumed dp total h some =
    let (least, inside, cases) = walk_round fuel consumed dp total h some in
    elim cases [
      | inl (e, four, all) ↦ (4, ends e four, omega arith, omega arith)
      | inr (e, rest) ↦
          let (n, spans, sum, cap) =
            walk-Spans fuel (consumed + node_length dp) (drop (node_length dp) dp) total rest
              some in
          (node_length dp + n, node e least refl spans, omega arith, cap)
    ]

near_cap : (consumed n : ℕ) → 4 ≤ n → consumed + n ≤ 64 * 1024 → ltb 65532 consumed ≡ false
near_cap consumed n h k = ground arith

Spans-walk :
    (fuel consumed : ℕ) (dp : List ℕ) {n : ℕ}
    → Spans dp n
    → n ≤ fuel
    → consumed + n ≤ 64 * 1024
    → walk fuel consumed dp ≡ consumed + n
unfolding walk
Spans-walk zero consumed dp (ends e l) p q = absurd (omega arith)
Spans-walk zero consumed dp (node e l s rest) p q = absurd (omega arith)
Spans-walk (suc fuel) consumed dp (ends e l) p q =
    let near : ltb 65532 consumed ≡ false = ground arith in
    let short : ltb (node_length dp) 4 ≡ false = ground arith in
    let same : (node_length dp == 4) ≡ true = (==_iff _ _).1 l in
    let cap : ltb 65536 (consumed + node_length dp) ≡ false = ground arith in
    rw (walk, near, short, e, same, cap, e) (omega arith)
Spans-walk (suc fuel) consumed dp (node {n = n} e l s rest) p q =
    let near : ltb 65532 consumed ≡ false = near_cap consumed n (Spans-least rest) (omega arith) in
    let long : ltb (node_length dp) 4 ≡ false = ground arith in
    let cap : ltb 65536 (consumed + node_length dp) ≡ false = ground arith in
    rw (walk, near, long, e, cap, e)
      (Spans-walk fuel (consumed + node_length dp) (drop (node_length dp) dp) rest (omega arith)
          (omega arith)
        ∙ omega arith)

walk_iff :
    (fuel : ℕ) (dp : List ℕ) (size : ℕ)
    → 64 * 1024 ≤ fuel
    → size ≢ 0
    → (walk fuel 0 dp ≡ size) ↔ (Spans dp size × (size ≤ 64 * 1024))
walk_iff fuel dp size enough some = (
  λ h.
      let (n, spans, sum, cap) = walk-Spans fuel 0 dp size h some in
      let same : n ≡ size = omega arith in (rw (← same) spans, cap),
  λ h. Spans-walk fuel 0 dp h.0 (omega arith) (omega arith) ∙ omega arith,
)

cap_enough : 64 * 1024 ≤ device_path_max_bytes
cap_enough = omega arith

-- A size other than 0 is measured exactly when the device path spans that many bytes, node by node to
-- its end, and they are at most 64 KiB.
pub device_path_size_iff :
    (dp : List ℕ) (size : ℕ)
    → size ≢ 0
    → (device_path_size dp ≡ size) ↔ (Spans dp size × (size ≤ 64 * 1024))
unfolding device_path_size
device_path_size_iff dp size some = walk_iff device_path_max_bytes dp size cap_enough some

unit_bytes-length : (units : List ℕ) → length (unit_bytes units) ≡ length units * 2
unfolding unit_bytes
unit_bytes-length [] = refl
unit_bytes-length (u ∷ units) = omega (arith, unit_bytes-length units)

drop-end : (xs ys : List ℕ) (n : ℕ) → n ≡ length xs → drop n (xs ++ ys) ≡ ys
drop-end [] ys zero e = refl
drop-end [] ys (suc n) e = absurd (omega arith)
drop-end (x ∷ xs) ys zero e = absurd (omega arith)
drop-end (x ∷ xs) ys (suc n) e = drop-end xs ys n (omega arith)

-- A file path node of this length, with its name, and the end behind it.
file_node-Spans :
    (units : List ℕ) (len : ℕ)
    → len ≡ 4 + length units * 2
    → len < 2 ^ 16
    → Spans (encode_node_header 4 4 len ++ (unit_bytes units ++ end_hdr)) (len + 4)
unfolding encode_node_header
file_node-Spans units len e small =
    let bytes = 4 ∷ 4 ∷ len % 256 ∷ len / 256 % 256 ∷ unit_bytes units in
    let long : node_length (bytes ++ end_hdr) ≡ len = omega arith in
    let behind : drop (node_length (bytes ++ end_hdr)) (bytes ++ end_hdr) ≡ end_hdr =
      drop-end bytes end_hdr (node_length (bytes ++ end_hdr))
        (omega (arith, long, unit_bytes-length units)) in
    node refl (omega arith) (ap (λ n. n + 4) (sym long)) (rw behind (ends refl refl))

built-Spans :
    (path : List ℕ)
    → length path ≢ 32764
    → (n : ℕ) × Spans (build_file_path_node path) n
      × (n ≡ length (build_file_path_node path))
      × (n ≤ 64 * 1024)
unfolding build_file_path_node encode_node_header
built-Spans path other =
    let units = path ++ 0 ∷ [] in
    let count = length-append path (0 ∷ []) in
    let spelled = unit_bytes-length units in
    let whole = length-append (unit_bytes units) end_hdr in
    elim (Bool-cases (ltb 0xffff (4 + length units * 2))) [
      | inl over ↦ (4, rw over (ends refl refl), rw over refl, omega arith)
      | inr fits ↦
          let small : 4 + length units * 2 < 2 ^ 16 = ground arith in
          (
            4 + length units * 2 + 4,
            rw fits (file_node-Spans units (4 + length units * 2) refl small),
            rw fits (omega (arith, whole, spelled)),
            omega (arith, count, other),
          )
    ]

-- A built node measures, as a device path, its own number of bytes: the node of the path and its end,
-- or the end alone for a path too long for the length field. A path of 32,764 units is the exception:
-- its node fits the length field and not the cap of the walk.
pub device_path_size-build_file_path_node :
    (path : List ℕ)
    → length path ≢ 32764
    → device_path_size (build_file_path_node path) ≡ length (build_file_path_node path)
device_path_size-build_file_path_node path other =
    let (n, spans, sized, cap) = built-Spans path other in
    let some : n ≢ 0 = λ z. absurd (omega (arith, Spans-least spans)) in
    (device_path_size_iff (build_file_path_node path) n some).1 (spans, cap) ∙ sized
