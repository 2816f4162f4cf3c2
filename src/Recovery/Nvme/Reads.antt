-- ===== src/Recovery/Nvme/Reads.antt =====
-- What the chunked reads of a boot partition return.
use odp_platform_common.Common.{
  ℕ, zero, suc, ◌+◌, ◌-◌, ◌*◌, ◌/◌, ◌%◌, ◌^◌, ◌≤◌, ◌<◌, min, bit_and, bit_or, Bool, true, false,
  not, ◌||◌, List, [], ◌∷◌, ◌++◌, length, get_or, take, drop, ltb, ◌==◌, ==_iff, if◌then◌else◌, ◌≡◌,
  refl, sym, ap, ◌∙◌, arith, Bool-cases, inl, inr, bit_or-disjoint, bit_and-low,
}
use odp_platform_common.Common.Result.{Result, ok, err, ok-injective, map_err}
use odp_platform_common.Common.Action.{Ends, ended, Ends-ok, Ends-of, Ends-bind}
use odp_platform_common.Recovery.Nvme.{
  Command, PassThru, Fault, invalid_parameter, status, identify_command, transfer, log_page_command,
  read_chunks, read_bp_via_log_page, clamp, checked_transfer, chunk_of_mdts, probe_result,
  probe_max_transfer,
}

-- What a controller reads from a Get Log Page command: the bytes' count, from the number of dwords
-- less one in two parts, their offset in the log page, and the partition.
abbrev pub asked_bytes : Command → ℕ
asked_bytes c = (c.cdw10 / 2 ^ 16 + c.cdw11 * 2 ^ 16 + 1) * 4

-- A Get Log Page command, for the page of a boot partition, with a buffer of the bytes it asks for.
abbrev pub IsLogPage : Command → Type 0
IsLogPage c = (c.cdw0 ≡ 0x02) × (c.cdw10 % 2 ^ 8 ≡ 0x15) × (c.transfer_length ≡ asked_bytes c)

abbrev pub asked_offset : Command → ℕ
asked_offset c = c.cdw12 + c.cdw13 * 2 ^ 32

abbrev pub asked_partition : Command → ℕ
asked_partition c = c.cdw10 / 2 ^ 8 % 2 ^ 7

or_lem :
    (a b : ℕ)
    → a < 2 ^ 16
    → b < 2 ^ 7
    → bit_or (bit_or (a * 2 ^ 16 % 2 ^ 32) (b * 2 ^ 8)) 0x15 ≡ a * 2 ^ 16 + b * 2 ^ 8 + 0x15
or_lem a b p q =
    let shifted : a * 2 ^ 16 % 2 ^ 32 ≡ a * 2 ^ 16 = omega arith in
    rw (shifted, bit_or-disjoint 16 a (a * 2 ^ 16) (b * 2 ^ 8) refl (omega arith))
      (bit_or-disjoint 8 (a * 2 ^ 8 + b) (a * 2 ^ 16 + b * 2 ^ 8) 0x15 (omega arith) (omega arith))

low_16 : (n : ℕ) → bit_and n 0xffff ≡ n % 2 ^ 16
low_16 n = bit_and-low 16 (n / 2 ^ 16) (n % 2 ^ 16) n (omega arith) (omega arith)

low_32 : (n : ℕ) → bit_and n 0xffffffff ≡ n % 2 ^ 32
low_32 n = bit_and-low 32 (n / 2 ^ 32) (n % 2 ^ 32) n (omega arith) (omega arith)

low_7 : (n : ℕ) → bit_and n 0x7f ≡ n % 2 ^ 7
low_7 n = bit_and-low 7 (n / 2 ^ 7) (n % 2 ^ 7) n (omega arith) (omega arith)

cdw10_lem :
    (bp_id off size : ℕ)
    → (log_page_command bp_id off size).cdw10
      ≡ (size / 4 - 1) % 2 ^ 32 % 2 ^ 16 * 2 ^ 16 + bp_id % 2 ^ 7 * 2 ^ 8 + 0x15
unfolding log_page_command
cdw10_lem bp_id off size =
    rw (low_16 ((size / 4 - 1) % 2 ^ 32), low_7 bp_id)
      (or_lem ((size / 4 - 1) % 2 ^ 32 % 2 ^ 16) (bp_id % 2 ^ 7) (omega arith) (omega arith))

cdw11_lem :
    (bp_id off size : ℕ)
    → (log_page_command bp_id off size).cdw11 ≡ (size / 4 - 1) % 2 ^ 32 / 2 ^ 16 % 2 ^ 16
unfolding log_page_command
cdw11_lem bp_id off size = low_16 ((size / 4 - 1) % 2 ^ 32 / 2 ^ 16)

offset_lem :
    (bp_id off size : ℕ)
    → asked_offset (log_page_command bp_id off size)
      ≡ (16 + off) % 2 ^ 32 + (16 + off) / 2 ^ 32 % 2 ^ 32 * 2 ^ 32
unfolding log_page_command
offset_lem bp_id off size = rw (low_32 (16 + off), low_32 ((16 + off) / 2 ^ 32)) refl

-- The command for whole dwords, fewer than 2 ^ 32 bytes, asks for exactly that many bytes of the log
-- page, behind the 16 of its header, of the partition's low seven bits.
pub log_page_command-asked :
    (bp_id off size : ℕ)
    → 4 ≤ size
    → size % 4 ≡ 0
    → size < 2 ^ 32
    → off + 16 < 2 ^ 64
    → (asked_bytes (log_page_command bp_id off size) ≡ size)
      × (asked_offset (log_page_command bp_id off size) ≡ 16 + off)
      × (asked_partition (log_page_command bp_id off size) ≡ bp_id % 2 ^ 7)
      × IsLogPage (log_page_command bp_id off size)
unfolding log_page_command
log_page_command-asked bp_id off size big whole small near =
    let ten = cdw10_lem bp_id off size in
    let eleven = cdw11_lem bp_id off size in
    let count : asked_bytes (log_page_command bp_id off size) ≡ size = omega (arith, ten, eleven) in
    (
      count,
      offset_lem bp_id off size ∙ omega arith,
      omega (arith, ten),
      (refl, omega (arith, ten), omega (arith, count)),
    )

module _ {A : Type 0} where
  take-add : (a b n : ℕ) (xs : List A) → n ≡ a + b → take n xs ≡ take a xs ++ take b (drop a xs)
  take-add zero b n xs e = let e' : n ≡ b = omega arith in rw e' refl
  take-add (suc a) b zero xs e = absurd (omega arith)
  take-add (suc a) zero (suc n) [] e = refl
  take-add (suc a) (suc b) (suc n) [] e = refl
  take-add (suc a) b (suc n) (x ∷ xs) e = ap (◌∷◌ x) (take-add a b n xs (omega arith))

  drop-drop : (a b n : ℕ) (xs : List A) → n ≡ a + b → drop b (drop a xs) ≡ drop n xs
  drop-drop zero b n xs e = let e' : n ≡ b = omega arith in rw e' refl
  drop-drop (suc a) b zero xs e = absurd (omega arith)
  drop-drop (suc a) zero (suc n) [] e = refl
  drop-drop (suc a) (suc b) (suc n) [] e = refl
  drop-drop (suc a) b (suc n) (x ∷ xs) e = drop-drop a b n xs (omega arith)

  drop-append_past : (xs ys : List A) (n m : ℕ) → m ≡ length xs + n → drop m (xs ++ ys) ≡ drop n ys
  drop-append_past [] ys n m e = let e' : m ≡ n = omega arith in rw e' refl
  drop-append_past (x ∷ xs) ys n zero e = absurd (omega arith)
  drop-append_past (x ∷ xs) ys n (suc m) e = drop-append_past xs ys n m (omega arith)

  -- Two neighbouring parts.
  take-drop_add :
      (off a b n : ℕ) (xs : List A)
      → n ≡ a + b
      → take n (drop off xs) ≡ take a (drop off xs) ++ take b (drop (off + a) xs)
  take-drop_add off a b n xs e =
      take-add a b n (drop off xs) e
      ∙ ap (λ ys. take a (drop off xs) ++ take b ys) (drop-drop off a (off + a) xs refl)

un_status :
    {S : Type 0} (r : S × Result (List ℕ) ℕ) {t : S} {bytes : List ℕ}
    → ◌≡◌ {A = S × Result (List ℕ) Fault} (r.0, map_err status r.1) (t, ok bytes)
    → r ≡ (t, ok bytes)
un_status (u, ok x) e = rw (ap (λ p. p.0) e, ok-injective (ap (λ p. p.1) e)) refl
un_status (u, err x) e = let wrong = ap (λ p. p.1) e in cc

stop-ok :
    {S A E : Type 0} (b : Bool) (s : S) (e : E) (r : S × Result A E) {t : S} {a : A}
    → (if b then (s, err e) else r) ≡ (t, ok a)
    → (b ≡ false) × (r ≡ (t, ok a))
stop-ok false s e r h = (refl, h)
stop-ok true s e r h = let wrong = ap (λ p. p.1) h in cc

module _ (P : PassThru) (bp_id : ℕ) (header image : List ℕ) where
  -- The controller's log page of this partition is a header and the image; a Get Log Page command for it
  -- that succeeds transfers the bytes that it asks for. Nothing is said of other commands.
  abbrev pub Serves : Type 0
  Serves =
      (c : Command) (s t : P.St) (bytes : List ℕ)
      → IsLogPage c
      → asked_partition c ≡ bp_id % 2 ^ 7
      → P.pass_thru c s ≡ (t, ok bytes)
      → bytes ≡ take (asked_bytes c) (drop (asked_offset c) (header ++ image))

  module _ (serves : Serves) (header_sized : length header ≡ 16) where
    transfer-Ends :
        (off size : ℕ) (s : P.St)
        → 4 ≤ size
        → size % 4 ≡ 0
        → size < 2 ^ 32
        → off + 16 < 2 ^ 64
        → Ends
            (λ t bytes. bytes ≡ take size (drop off image))
            (transfer P (log_page_command bp_id off size) s)
    unfolding transfer
    transfer-Ends off size s big whole small near = Ends-of _ λ t bytes e.
        let (count, start, part, page) =
          log_page_command-asked bp_id off size big whole small near in
        let got = serves (log_page_command bp_id off size) s t bytes page part (un_status _ e) in
        got
        ∙ rw (count, start)
            (ap (take size)
              (drop-append_past header image off (16 + off) (omega (arith, header_sized))))

    read_chunks-Ends :
        (fuel chunk off left : ℕ) (s : P.St)
        → left ≤ fuel
        → 4 ≤ chunk
        → chunk % 4 ≡ 0
        → chunk < 2 ^ 32
        → left % 4 ≡ 0
        → off + left + 16 < 2 ^ 64
        → Ends
            (λ t bytes. bytes ≡ take left (drop off image))
            (read_chunks P fuel bp_id chunk off left s)
    unfolding read_chunks
    read_chunks-Ends zero chunk off left s p q r v w x =
        let z : left ≡ 0 = omega arith in rw z (ended refl)
    read_chunks-Ends (suc fuel) chunk off left s p q r v w x = elim (Bool-cases (left == 0)) [
      | inl done ↦ let z : left ≡ 0 = (==_iff _ _).0 done in rw (read_chunks, done, z) (ended refl)
      | inr more ↦
          let some_left : 1 ≤ left = ground arith in
          let size = min chunk left in
          let at_least : 4 ≤ size = omega arith in
          let aligned : size % 4 ≡ 0 = omega arith in
          rw (read_chunks, more)
            (Ends-bind (transfer P (log_page_command bp_id off size) s) _ λ t bytes got.
              Ends-bind (read_chunks P fuel bp_id chunk (off + size) (left - size) t) _
                λ u rest read.
                  let here =
                    Ends-ok _ got
                      (transfer-Ends off size s at_least aligned (omega arith) (omega arith)) in
                  let there = Ends-ok _ read (
                    read_chunks-Ends fuel chunk (off + size) (left - size) t (omega arith) q r v
                      (omega arith) (omega arith)) in
                  ended (
                    ap (λ b. b ++ rest) here
                    ∙ ap (λ m. take size (drop off image) ++ m) there
                    ∙ sym (take-drop_add off size (left - size) left image (omega arith))))
    ]

    -- A read of the boot partition that succeeds returns the partition's image from its start, as many
    -- bytes as the destination has, however it is cut into chunks of less than 2 ^ 32 bytes: the page's
    -- header of 16 bytes is left out, and no chunk is lost or read twice. The controller is assumed to
    -- answer a Get Log Page command for the partition with the bytes of the page that it asks for.
    pub read_bp_via_log_page-image :
        (chunk_bytes dest_len : ℕ) (s t : P.St) {bytes : List ℕ}
        → chunk_bytes < 2 ^ 32
        → dest_len + 16 < 2 ^ 64
        → read_bp_via_log_page P bp_id chunk_bytes dest_len s ≡ (t, ok bytes)
        → bytes ≡ take dest_len image
    unfolding read_bp_via_log_page
    read_bp_via_log_page-image chunk_bytes dest_len s t small near h =
        let (fine, read) =
          stop-ok (ltb chunk_bytes 4 || not (chunk_bytes % 4 == 0) || not (dest_len % 4 == 0)) s
            invalid_parameter (read_chunks P dest_len bp_id chunk_bytes 0 dest_len s) h in
        Ends-ok _ read (
          read_chunks-Ends dest_len chunk_bytes 0 dest_len s (omega arith) (ground arith)
            (ground arith) small (ground arith) (omega arith))

chunk_of_mdts-bounds :
    (mdts : ℕ)
    → (64 * 1024 ≤ chunk_of_mdts mdts)
      × (chunk_of_mdts mdts ≤ 512 * 1024)
      × (chunk_of_mdts mdts % 4 ≡ 0)
unfolding chunk_of_mdts clamp checked_transfer
chunk_of_mdts-bounds mdts = (ground arith, ground arith, ground arith)

probe_result-bounds :
    (r : Result (List ℕ) ℕ)
    → (64 * 1024 ≤ probe_result r) × (probe_result r ≤ 512 * 1024) × (probe_result r % 4 ≡ 0)
unfolding probe_result
probe_result-bounds (ok buf) = chunk_of_mdts-bounds (get_or buf 77 0)
probe_result-bounds (err e) = (omega arith, omega arith, refl)

-- The chunk that the probe chooses is whole dwords, between 64 KiB and 512 KiB, whatever the controller
-- reports or fails with.
pub probe_max_transfer-bounds :
    (P : PassThru) (s : P.St)
    → (64 * 1024 ≤ (probe_max_transfer P s).1)
      × ((probe_max_transfer P s).1 ≤ 512 * 1024)
      × ((probe_max_transfer P s).1 % 4 ≡ 0)
unfolding probe_max_transfer
probe_max_transfer-bounds P s = probe_result-bounds (P.pass_thru identify_command s).1
