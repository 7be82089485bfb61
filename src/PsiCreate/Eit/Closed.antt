-- ===== src/PsiCreate/Eit/Closed.antt =====
-- The EIT that `rewrite_eit` makes is a section, and carries the identifiers of the output stream.
use mathlib.Core.Path.{subst}
use dvb2dvb.Base.{
  ℕ, ◌+◌, ◌-◌, ◌*◌, ◌/◌, ◌%◌, ◌^◌, ◌<◌, ◌≤◌, ◌≡◌, arith, ◌==◌, ltb, if◌then◌else◌, ◌≢◌, ◌∙◌,
  Bool-cases, inl, inr, Option, some, none,
}
use dvb2dvb.Base.Bits.{bit_and, bit_or}
use dvb2dvb.Base.Memory.{Memory, load, memcpy, load-memcpy}
use dvb2dvb.Types.{Section, Mux, section_size}
use dvb2dvb.Transport.{IsSection}
use dvb2dvb.PsiCreate.Put.{put_u16be, load-put_u16be}
use dvb2dvb.PsiCreate.Seal.{seal, seal-IsSection, load-seal}
use dvb2dvb.PsiCreate.Keeps.{Keeps}
use dvb2dvb.PsiCreate.Descriptors.{copy_eit_loop, copy_eit_descriptors}
use dvb2dvb.PsiCreate.Eit.{Rewritten, rewritten, other_service, undefined, eit_header, rewrite_eit}
use dvb2dvb.PsiCreate.Eit.Writes.{Ends, copy_eit_loop-Ends}

-- The identifiers of the service, the stream and the network in an EIT.
pub record HasIdentifiers (s : Section) (new_service_id : ℕ) (mux : Mux) : Type 0 where
  pub service : load s.buf 3 * 256 + load s.buf 4 ≡ new_service_id % 2 ^ 16
  pub stream : load s.buf 8 * 256 + load s.buf 9 ≡ mux.tsid % 2 ^ 16
  pub network : load s.buf 10 * 256 + load s.buf 11 ≡ mux.onid % 2 ^ 16

abbrev Copied : Memory → ℕ → Option (Memory × ℕ) → Type 0
Copied dst d none = Unit
Copied dst d (some (m, n)) = Keeps d dst m

copy_eit_descriptors-Copied :
    (dst : Memory) (d : ℕ) (src : Memory) (s len onid : ℕ) (bytes : Memory)
    → Copied dst d (copy_eit_descriptors dst d src s len onid bytes)
unfolding copy_eit_descriptors
copy_eit_descriptors-Copied dst d src s len onid bytes =
    through (copy_eit_loop len dst d src s 0 len onid (record { len = 0; buf = bytes }))
      (copy_eit_loop-Ends len dst d src s 0 len onid (record { len = 0; buf = bytes }))
  where
    through :
        (r : Option (Memory × ℕ))
        → Ends d dst r
        → Copied dst d (elim r [ none ↦ none | some (m, p) ↦ some (m, p - d) ])
    through none e = tt
    through (some (m, p)) e = e.1

module _ (newbuf buf : Memory) (new_service_id : ℕ) (mux : Mux) where
  load-eit_header :
      (j : ℕ)
      → load (eit_header newbuf buf new_service_id mux) j ≡ (
          if j == 3
          then new_service_id / 256 % 256
          else if j == 4
          then new_service_id % 256
          else if j == 8
          then mux.tsid / 256 % 256
          else if j == 9
          then mux.tsid % 256
          else if j == 10
          then mux.onid / 256 % 256
          else if j == 11
          then mux.onid % 256
          else if ltb j 24
          then load buf j
          else load newbuf j)
  unfolding eit_header
  load-eit_header j =
      let m0 = memcpy newbuf 0 buf 0 14 in
      let m1 = put_u16be m0 (0 + 3) new_service_id in
      let m2 = put_u16be m1 (0 + 8) mux.tsid in
      let m3 = put_u16be m2 (0 + 10) mux.onid in
      ground (
        arith,
        load-memcpy m3 14 buf 14 10 j,
        load-put_u16be m2 (0 + 10) mux.onid j,
        load-put_u16be m1 (0 + 8) mux.tsid j,
        load-put_u16be m0 (0 + 3) new_service_id j,
        load-memcpy newbuf 0 buf 0 14 j,
      )

-- What is to be shown of a result.
abbrev Closes : Section → ℕ → Mux → Rewritten → Type 0
Closes eit new_service_id mux (rewritten s) =
    s.length ≤ section_size → IsSection s (load eit.buf 0) × HasIdentifiers s new_service_id mux
Closes eit new_service_id mux other_service = Unit
Closes eit new_service_id mux undefined = Unit

module _ (new_eit eit : Section) (new_service_id : ℕ) (mux : Mux) (m : Memory) (flags n : ℕ)
    (keeps : Keeps 26 (eit_header new_eit.buf eit.buf new_service_id mux) m)
    (fits : 24 + (n + 2) + 4 ≤ section_size) where
  abbrev header : Memory
  header = eit_header new_eit.buf eit.buf new_service_id mux

  before_seal : (j : ℕ) → j < 24 → load (put_u16be m 24 flags) j ≡ load header j
  before_seal j h = ground (arith, load-put_u16be m 24 flags j, keeps.below j (omega arith))

  after_seal :
      (j : ℕ)
      → j < 24
      → (j ≢ 1)
      → (j ≢ 2)
      → load (seal new_eit (put_u16be m 24 flags) (24 + (n + 2)) (15 * 2 ^ 12)).buf j
        ≡ load header j
  after_seal j h n1 n2 =
      load-seal new_eit (put_u16be m 24 flags) (24 + (n + 2)) 15 j (omega arith) fits (omega arith)
        n1 n2
      ∙ before_seal j h

  closes :
      IsSection (seal new_eit (put_u16be m 24 flags) (24 + (n + 2)) (15 * 2 ^ 12)) (load eit.buf 0)
      × HasIdentifiers
          (seal new_eit (put_u16be m 24 flags) (24 + (n + 2)) (15 * 2 ^ 12))
          new_service_id
          mux
  closes =
      let id = load-eit_header new_eit.buf eit.buf new_service_id mux in
      (
        seal-IsSection new_eit (put_u16be m 24 flags) (24 + (n + 2)) 15
            (before_seal 0 (omega arith) ∙ id 0) (omega arith) fits,
        record {
          service = omega (
            arith,
            after_seal 3 (omega arith) (omega arith) (omega arith) ∙ id 3,
            after_seal 4 (omega arith) (omega arith) (omega arith) ∙ id 4,
          );
          stream = omega (
            arith,
            after_seal 8 (omega arith) (omega arith) (omega arith) ∙ id 8,
            after_seal 9 (omega arith) (omega arith) (omega arith) ∙ id 9,
          );
          network = omega (
            arith,
            after_seal 10 (omega arith) (omega arith) (omega arith) ∙ id 10,
            after_seal 11 (omega arith) (omega arith) (omega arith) ∙ id 11,
          );
        },
      )

rewrite_eit-Closes :
    (new_eit eit : Section) (chunk : Memory) (old_service_id new_service_id onid : ℕ) (mux : Mux)
    → Closes eit new_service_id mux
        (rewrite_eit new_eit chunk eit old_service_id new_service_id onid mux)
unfolding rewrite_eit
rewrite_eit-Closes new_eit eit chunk old_service_id new_service_id onid mux =
    let buf = eit.buf in
    let m1 = eit_header new_eit.buf buf new_service_id mux in
    let loop_length = bit_or (bit_and (load buf 24) 0x0f * 2 ^ 8) (load buf 25) in
    let running_status = bit_and (load buf 24) 0xe0 / 2 ^ 5 in
    elim (Bool-cases (bit_or (load buf 3 * 2 ^ 8) (load buf 4) == old_service_id)) [
      | inl same ↦ rw same (
          through (copy_eit_descriptors m1 (24 + 2) buf 26 loop_length onid chunk)
            (copy_eit_descriptors-Copied m1 (24 + 2) buf 26 loop_length onid chunk))
      | inr other ↦ rw other tt
    ]
  where
    through :
        (r : Option (Memory × ℕ))
        → Copied (eit_header new_eit.buf eit.buf new_service_id mux) 26 r
        → Closes eit new_service_id mux (elim r [
          | none ↦ undefined
          | some (m2, n) ↦ rewritten (
              seal new_eit
                (put_u16be m2 24 (
                  bit_or (bit_or (bit_and (load eit.buf 24) 0xe0 / 2 ^ 5 * 2 ^ 13) (0 * 2 ^ 12)) n))
                (24 + (n + 2))
                0xf000)
        ])
    through none k = tt
    through (some (m2, n)) k = λ fits.
        closes new_eit eit new_service_id mux m2
          (bit_or (bit_or (bit_and (load eit.buf 24) 0xe0 / 2 ^ 5 * 2 ^ 13) (0 * 2 ^ 12)) n) n k
          (unfold seal in fits)

-- If `rewrite_eit` makes a new EIT, and it has at most 4096 bytes, then it is a section with the table_id
-- of the old one, a right length field and CRC, and it carries the new service_id and the stream and
-- network identifiers of the output.
pub rewrite_eit-IsSection :
    (new_eit eit : Section) (chunk : Memory) (old_service_id new_service_id onid : ℕ) (mux : Mux)
    (s : Section)
    → rewrite_eit new_eit chunk eit old_service_id new_service_id onid mux ≡ rewritten s
    → s.length ≤ section_size
    → IsSection s (load eit.buf 0) × HasIdentifiers s new_service_id mux
rewrite_eit-IsSection new_eit eit chunk old_service_id new_service_id onid mux s made fits =
    subst (Closes eit new_service_id mux) made
      (rewrite_eit-Closes new_eit eit chunk old_service_id new_service_id onid mux) fits
