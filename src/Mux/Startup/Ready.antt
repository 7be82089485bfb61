-- ===== src/Mux/Startup/Ready.antt =====
-- `init_service` from the first packet to the tables of the output.
use dvb2dvb.Base.{
  ◌<◌, ℕ, ◌≡◌, refl, arith, ◌==◌, ◌||◌, Bool-cases, inl, inr, false, List, [], ◌∷◌, Option, some,
  none,
}
use mathlib.Core.Path.{subst}
use dvb2dvb.Base.Memory.{Memory}
use dvb2dvb.Crc32.{psi_crc32}
use dvb2dvb.Types.{Section, Service}
use dvb2dvb.PsiRead.Pat.{process_pat}
use dvb2dvb.PsiRead.Sdt.{Sdt, exited, processed, undefined}
use dvb2dvb.PsiRead.Pmt.{process_pmt}
use dvb2dvb.PsiCreate.Pmt.{create_pmt}
use dvb2dvb.PsiCreate.Ait.{create_ait}
use dvb2dvb.Mux.Continuity.{packet_pid}
use dvb2dvb.Mux.Startup.{
  Outcome, waiting, exits, breaks, returned, checked, find_pat, take_table, read_tables,
  make_tables, init_service,
}
use dvb2dvb.Mux.Startup.Verified.{
  IsRight, Verified, Same, Same-Verified, Always, process_pat-Always,
}
use dvb2dvb.Mux.Startup.Tables.{AlwaysRead, take_table-Verified}

-- What holds of the service that `init_service` or one of its loops returns, if one is.
abbrev pub AlwaysReturned : (Service → Type 0) → Outcome → Type 0
AlwaysReturned P (returned sv left) = P sv
AlwaysReturned P _ = Unit

checked-Verified : (sv : Service) (p : Memory) → Verified sv → Verified (checked sv p)
unfolding checked
checked-Verified sv p v = record {
  pmt = v.pmt;
  sdt = v.sdt;
  next_pmt = v.next_pmt;
  next_sdt = v.next_sdt;
}

found-Verified :
    (sv : Service) (o : Option Service)
    → Always (Same sv) o
    → Verified sv
    → Verified (elim o [ none ↦ sv | some sv' ↦ sv' ])
found-Verified sv none p v = v
found-Verified sv (some sv') p v = Same-Verified p v

find_pat-Verified :
    (ps : List Memory) (sv : Service) → Verified sv → AlwaysReturned Verified (find_pat ps sv)
unfolding find_pat
find_pat-Verified [] sv v = tt
find_pat-Verified (p ∷ ps) sv v =
    let v1 = checked-Verified sv p v in
    elim (Bool-cases (packet_pid p == 0)) [
      | inl pat ↦
          rw (find_pat, pat)
            (found-Verified (checked sv p) (process_pat (checked sv p) p)
              (process_pat-Always (checked sv p) p) v1)
      | inr other ↦ rw (find_pat, other) (find_pat-Verified ps (checked sv p) v1)
    ]

-- A service with a PMT and an SDT.
record HasTables (sv : Service) : Type 0 where
  pub verified : Verified sv
  pub has_pmt : (sv.pmt.length == 0) ≡ false
  pub has_sdt : (sv.sdt.length == 0) ≡ false

tables_there :
    (sv : Service) → Verified sv → (sv.pmt.length == 0 || sv.sdt.length == 0) ≡ false → HasTables sv
tables_there sv v there = record {
  verified = v;
  has_pmt = ground (arith, there);
  has_sdt = ground (arith, there);
}

read_next :
    (r : Sdt) (f : Service → Outcome)
    → AlwaysRead Verified r
    → ((sv : Service) → Verified sv → AlwaysReturned HasTables (f sv))
    → AlwaysReturned HasTables
        (elim r [ exited ↦ exits | undefined ↦ breaks | processed sv ↦ f sv ])
read_next exited f v h = tt
read_next undefined f v h = tt
read_next (processed sv) f v h = h sv v

read_tables-HasTables :
    (ps : List Memory) (sv : Service) → Verified sv → AlwaysReturned HasTables (read_tables ps sv)
unfolding read_tables
read_tables-HasTables [] sv v = elim (Bool-cases (sv.pmt.length == 0 || sv.sdt.length == 0)) [
  | inl missing ↦ rw (read_tables, missing) tt
  | inr there ↦ rw (read_tables, there) (tables_there sv v there)
]
read_tables-HasTables (p ∷ ps) sv v = elim (Bool-cases (sv.pmt.length == 0 || sv.sdt.length == 0)) [
  | inl missing ↦
      rw (read_tables, missing)
        (read_next (take_table (checked sv p) p) (λ sv'. read_tables ps sv')
          (take_table-Verified (checked sv p) p (checked-Verified sv p v))
          (λ sv' v'. read_tables-HasTables ps sv' v'))
  | inr there ↦ rw (read_tables, there) (tables_there sv v there)
]

kept_tables :
    (sv sv' : Service)
    → sv'.pmt ≡ sv.pmt
    → sv'.sdt ≡ sv.sdt
    → sv'.next_pmt ≡ sv.next_pmt
    → sv'.next_sdt ≡ sv.next_sdt
    → HasTables sv
    → HasTables sv'
kept_tables sv sv' pmt sdt next_pmt next_sdt h = record {
  verified =
      Same-Verified {sv = sv} {sv' = sv'}
        (record { pmt = pmt; sdt = sdt; next_pmt = next_pmt; next_sdt = next_sdt }) h.verified;
  has_pmt = rw pmt h.has_pmt;
  has_sdt = rw sdt h.has_sdt;
}

create_pmt-HasTables : (sv : Service) → HasTables sv → HasTables (create_pmt (process_pmt sv))
unfolding create_pmt process_pmt
create_pmt-HasTables sv = kept_tables sv (create_pmt (process_pmt sv)) refl refl refl refl

create_ait-HasTables :
    (sv : Service) (url : Option (List ℕ))
    → HasTables sv
    → Always HasTables (elim url [ none ↦ none | some u ↦ some (create_ait sv u) ])
unfolding create_ait
create_ait-HasTables sv none h = tt
create_ait-HasTables sv (some u) h = kept_tables sv (create_ait sv u) refl refl refl refl h

make_tables-HasTables : (sv : Service) → HasTables sv → Always HasTables (make_tables sv)
unfolding make_tables
make_tables-HasTables sv h =
    let sv1 = create_pmt (process_pmt sv) in
    let h1 = create_pmt-HasTables sv h in
    elim (Bool-cases (sv1.ait_pid == 0)) [
      | inl no_ait ↦ rw (make_tables, no_ait) h1
      | inr ait ↦ rw (make_tables, ait) (create_ait-HasTables sv1 sv1.hbbtv.url h1)
    ]

tables_made :
    (o : Option Service) (left : List Memory)
    → Always HasTables o
    → AlwaysReturned HasTables (elim o [ none ↦ breaks | some sv ↦ returned sv left ])
tables_made none left h = tt
tables_made (some sv) left h = h

tables_read :
    (r : Outcome)
    → AlwaysReturned HasTables r
    → AlwaysReturned HasTables (elim r [
      | returned sv left ↦ elim (make_tables sv) [ none ↦ breaks | some sv' ↦ returned sv' left ]
      | waiting ↦ waiting
      | exits ↦ exits
      | breaks ↦ breaks
    ])
tables_read (returned sv left) h = tables_made (make_tables sv) left (make_tables-HasTables sv h)
tables_read waiting h = tt
tables_read exits h = tt
tables_read breaks h = tt

pat_found :
    (r : Outcome)
    → AlwaysReturned Verified r
    → AlwaysReturned HasTables (elim r [
      | returned sv1 ps1 ↦ elim (read_tables ps1 sv1) [
        | returned sv2 ps2 ↦ elim (make_tables sv2) [ none ↦ breaks | some sv3 ↦ returned sv3 ps2 ]
        | waiting ↦ waiting
        | exits ↦ exits
        | breaks ↦ breaks
      ]
      | waiting ↦ waiting
      | exits ↦ exits
      | breaks ↦ breaks
    ])
pat_found (returned sv ps) v = tables_read (read_tables ps sv) (read_tables-HasTables ps sv v)
pat_found waiting v = tt
pat_found exits v = tt
pat_found breaks v = tt

right_crc :
    (s : Section) → IsRight s → (s.length == 0) ≡ false → psi_crc32 s.buf 0 s.length 0xffffffff ≡ 0
right_crc s (inl empty) there = ground (arith, empty)
right_crc s (inr crc) there = crc

init_service-Always :
    (ps : List Memory) (sv : Service) → Verified sv → AlwaysReturned HasTables (init_service ps sv)
unfolding init_service
init_service-Always ps sv v = pat_found (find_pat ps sv) (find_pat-Verified ps sv v)

-- When init_service returns for a service without tables, whatever packets it has read, the service has a
-- PMT and an SDT, neither empty, and the CRC of each over all its bytes is right.
pub init_service-HasTables :
    (ps left : List Memory) (sv sv' : Service)
    → Verified sv
    → init_service ps sv ≡ returned sv' left
    → (0 < sv'.pmt.length)
      × (psi_crc32 sv'.pmt.buf 0 sv'.pmt.length 0xffffffff ≡ 0)
      × (0 < sv'.sdt.length)
      × (psi_crc32 sv'.sdt.buf 0 sv'.sdt.length 0xffffffff ≡ 0)
init_service-HasTables ps left sv sv' v e =
    let h : HasTables sv' =
      subst (λ r. AlwaysReturned HasTables r) e (init_service-Always ps sv v) in
    (
      ground (arith, h.has_pmt),
      right_crc sv'.pmt h.verified.pmt h.has_pmt,
      ground (arith, h.has_sdt),
      right_crc sv'.sdt h.verified.sdt h.has_sdt,
    )
