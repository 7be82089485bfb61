-- ===== src/Mux/Startup/Tables.antt =====
-- The tables of the input keep right CRCs while `init_service` and the reader of the SDT go over them.
use dvb2dvb.Base.{
  if◌then◌else◌, ℕ, zero, suc, ◌+◌, ◌-◌, ◌*◌, ◌^◌, ◌≡◌, refl, ◌==◌, ltb, Bool-cases, Option-cases,
  inl, inr, Option, some, none,
}
use dvb2dvb.Base.Bits.{bit_and, bit_or}
use dvb2dvb.Base.Memory.{Memory, load}
use dvb2dvb.Types.{Service}
use dvb2dvb.PsiRead.Sdt.{
  Sdt, exited, processed, undefined, service_descriptor, sdt_descriptors, sdt_loop, forget_unnamed,
  process_sdt,
}
use dvb2dvb.Mux.Continuity.{packet_pid}
use dvb2dvb.Mux.Startup.{take_pmt, take_sdt, take_table}
use dvb2dvb.Mux.Startup.Verified.{
  Verified, Same, Same-refl, Same-trans, Same-Verified, Always, service_descriptor-Always,
  take_pmt-Verified, take_sdt-Verified,
}

-- A service that is the same as one that is the same.
weaker :
    (sv sv' : Service) (o : Option Service) → Same sv sv' → Always (Same sv') o → Always (Same sv) o
weaker sv sv' none same p = tt
weaker sv sv' (some sv'') same p = Same-trans same p

then-Always :
    (sv : Service) (o : Option Service) (f : Service → Option Service)
    → Always (Same sv) o
    → ((sv' : Service) → Always (Same sv') (f sv'))
    → Always (Same sv) (elim o [ none ↦ none | some sv' ↦ f sv' ])
then-Always sv none f p h = tt
then-Always sv (some sv') f p h = weaker sv sv' (f sv') p (h sv')

sdt_descriptors-Always :
    (fuel : ℕ) (sv : Service) (buf : Memory) (j i service_id : ℕ)
    → Always (Same sv) (sdt_descriptors fuel sv buf j i service_id)
unfolding sdt_descriptors
sdt_descriptors-Always zero sv buf j i service_id = Same-refl sv
sdt_descriptors-Always (suc fuel) sv buf j i service_id =
    let next = j + (2 + load buf (j + 1)) in
    elim (Bool-cases (ltb j i)) [
      | inl more ↦ elim (Bool-cases (load buf j == 0x48)) [
        | inl named ↦
            rw (more, named)
              (then-Always sv (service_descriptor sv buf (j + 2) service_id)
                (λ sv'. sdt_descriptors fuel sv' buf next i service_id)
                (service_descriptor-Always sv buf (j + 2) service_id)
                (λ sv'. sdt_descriptors-Always fuel sv' buf next i service_id))
        | inr other ↦ rw (more, other) (sdt_descriptors-Always fuel sv buf next i service_id)
      ]
      | inr over ↦ rw over (Same-refl sv)
    ]

-- What holds of the service that is returned, if one is.
abbrev pub AlwaysRead : (Service → Type 0) → Sdt → Type 0
AlwaysRead P exited = Unit
AlwaysRead P (processed sv) = P sv
AlwaysRead P undefined = Unit

entry-Verified :
    (sv : Service) (o : Option Service) (f : Service → Sdt)
    → Always (Same sv) o
    → Verified sv
    → ((sv' : Service) → Verified sv' → AlwaysRead Verified (f sv'))
    → AlwaysRead Verified (elim o [ none ↦ undefined | some sv' ↦ f sv' ])
entry-Verified sv none f p v h = tt
entry-Verified sv (some sv') f p v h = h sv' (Same-Verified p v)

sdt_loop-Verified :
    (fuel : ℕ) (sv : Service) (buf : Memory) (i length : ℕ)
    → Verified sv
    → AlwaysRead Verified (sdt_loop fuel sv buf i length)
unfolding sdt_loop
sdt_loop-Verified zero sv buf i length v = v
sdt_loop-Verified (suc fuel) sv buf i length v =
    let loop_length = bit_or (bit_and (load buf (i + 3)) 0x0f * 2 ^ 8) (load buf (i + 4)) in
    let service_id = bit_or (load buf i * 2 ^ 8) (load buf (i + 1)) in
    let j = i + 5 in
    elim (Bool-cases (ltb i (length - 4))) [
      | inl more ↦ elim (Bool-cases (ltb length (j + loop_length))) [
        | inl long ↦ rw (sdt_loop, more, long) tt
        | inr fits ↦
            rw (sdt_loop, more, fits)
              (entry-Verified sv (sdt_descriptors loop_length sv buf j (j + loop_length) service_id)
                (λ sv'. sdt_loop fuel sv' buf (j + loop_length) length)
                (sdt_descriptors-Always loop_length sv buf j (j + loop_length) service_id) v
                (λ sv' v'. sdt_loop-Verified fuel sv' buf (j + loop_length) length v'))
      ]
      | inr over ↦ rw (sdt_loop, over) v
    ]

forget_unnamed-Verified : (sv : Service) → Verified sv → Verified (forget_unnamed sv)
unfolding forget_unnamed
forget_unnamed-Verified sv v = elim (Option-cases sv.name) [
  | inl unnamed ↦
      rw (forget_unnamed, unnamed)
        (record { pmt = v.pmt; sdt = inl refl; next_pmt = v.next_pmt; next_sdt = v.next_sdt })
  | inr (name, is) ↦ rw (forget_unnamed, is) v
]

forget-Verified :
    (r : Sdt)
    → AlwaysRead Verified r
    → AlwaysRead Verified (elim r [
      | exited ↦ exited
      | undefined ↦ undefined
      | processed sv ↦ processed (forget_unnamed sv)
    ])
forget-Verified exited v = tt
forget-Verified undefined v = tt
forget-Verified (processed sv) v = forget_unnamed-Verified sv v

pub process_sdt-Verified : (sv : Service) → Verified sv → AlwaysRead Verified (process_sdt sv)
unfolding process_sdt
process_sdt-Verified sv v = forget-Verified (sdt_loop _ _ sv.sdt.buf 11 _) (
    sdt_loop-Verified sv.sdt.length _ sv.sdt.buf 11 sv.sdt.length
      (record { pmt = v.pmt; sdt = v.sdt; next_pmt = v.next_pmt; next_sdt = v.next_sdt }))

pmt-Verified :
    (o : Option Service)
    → ((sv : Service) → o ≡ some sv → Verified sv)
    → AlwaysRead Verified (elim o [ none ↦ undefined | some sv ↦ processed sv ])
pmt-Verified none h = tt
pmt-Verified (some sv) h = h sv refl

sdt-Verified :
    (o : Option Service)
    → ((sv : Service) → o ≡ some sv → Verified sv)
    → AlwaysRead Verified (elim o [
      | none ↦ undefined
      | some sv ↦ if sv.sdt.length == 0 then processed sv else process_sdt sv
    ])
sdt-Verified none h = tt
sdt-Verified (some sv) h = elim (Bool-cases (sv.sdt.length == 0)) [
  | inl empty ↦ rw empty (h sv refl)
  | inr whole ↦ rw whole (process_sdt-Verified sv (h sv refl))
]

pub take_table-Verified :
    (sv : Service) (p : Memory) → Verified sv → AlwaysRead Verified (take_table sv p)
unfolding take_table
take_table-Verified sv p v = elim (Bool-cases (packet_pid p == sv.pmt_pid)) [
  | inl pmt ↦
      rw (take_table, pmt) (pmt-Verified (take_pmt sv p) (λ sv'. take_pmt-Verified sv sv' p v))
  | inr no_pmt ↦ elim (Bool-cases (packet_pid p == 17)) [
    | inl sdt ↦
        rw (take_table, no_pmt, sdt)
          (sdt-Verified (take_sdt sv p) (λ sv'. take_sdt-Verified sv sv' p v))
    | inr other ↦ rw (take_table, no_pmt, other) v
  ]
]
