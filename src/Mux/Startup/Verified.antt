-- ===== src/Mux/Startup/Verified.antt =====
-- The tables that `init_service` leaves in a service: whole sections with right CRCs.
use mathlib.Core.Option.{some-injective, some-ne-none}
use mathlib.Core.Path.{subst}
use dvb2dvb.Base.{
  ℕ, zero, suc, ◌+◌, ◌*◌, ◌^◌, ◌≡◌, refl, sym, ◌∙◌, arith, ◌⊎◌, ◌==◌, ltb, leb, Bool-cases,
  Option-cases, inl, inr, Option, some, none,
}
use dvb2dvb.Base.Bits.{bit_and, bit_or}
use dvb2dvb.Base.Memory.{Memory, load}
use dvb2dvb.Crc32.{psi_crc32}
use dvb2dvb.Types.{Section, Service}
use dvb2dvb.PsiRead.Sections.{Pair, process_section}
use dvb2dvb.PsiRead.Sections.Accepted.{IsPartial, kept, replaced, process_section-Accepted}
use dvb2dvb.PsiRead.Pat.{nprograms, pat_programs, process_pat}
use dvb2dvb.PsiRead.Sdt.{service_descriptor}
use dvb2dvb.Mux.Startup.{take_pmt, take_sdt}

-- No section, or one with a right CRC.
abbrev pub IsRight : Section → Type 0
IsRight s = (s.length ≡ 0) ⊎ (psi_crc32 s.buf 0 s.length 0xffffffff ≡ 0)

pub record Verified (sv : Service) : Type 0 where
  pub pmt : IsRight sv.pmt
  pub sdt : IsRight sv.sdt
  pub next_pmt : IsPartial sv.next_pmt
  pub next_sdt : IsPartial sv.next_sdt

process_section-IsRight :
    (next curr : Section) (buf : Memory) (table_id : ℕ) (p : Pair)
    → IsRight curr
    → IsPartial next
    → process_section next curr buf table_id ≡ some p
    → IsRight p.curr × IsPartial p.next
process_section-IsRight next curr buf table_id p right partial e =
    elim (process_section-Accepted next curr buf table_id p partial e) [
      | kept _ same going ↦ (subst (λ (s : Section). IsRight s) (sym same) right, going)
      | replaced _ over whole crc ↦ (inr crc, rw over (omega arith))
    ]

pub take_pmt-Verified :
    (sv sv' : Service) (p : Memory) → Verified sv → take_pmt sv p ≡ some sv' → Verified sv'
unfolding take_pmt
take_pmt-Verified sv sv' p v e = elim (Option-cases (process_section sv.next_pmt sv.pmt p 0x02)) [
  | inl none_read ↦ absurd (some-ne-none sv' (sym (rw (take_pmt, none_read) at e)))
  | inr (pair, is) ↦
      let (right, partial) =
        process_section-IsRight sv.next_pmt sv.pmt p 0x02 pair v.pmt v.next_pmt is in
      subst (λ (s : Service). Verified s) (some-injective _ sv' (rw (take_pmt, is) at e))
        (record { pmt = right; sdt = v.sdt; next_pmt = partial; next_sdt = v.next_sdt })
]

pub take_sdt-Verified :
    (sv sv' : Service) (p : Memory) → Verified sv → take_sdt sv p ≡ some sv' → Verified sv'
unfolding take_sdt
take_sdt-Verified sv sv' p v e = elim (Option-cases (process_section sv.next_sdt sv.sdt p 0x42)) [
  | inl none_read ↦ absurd (some-ne-none sv' (sym (rw (take_sdt, none_read) at e)))
  | inr (pair, is) ↦
      let (right, partial) =
        process_section-IsRight sv.next_sdt sv.sdt p 0x42 pair v.sdt v.next_sdt is in
      subst (λ (s : Service). Verified s) (some-injective _ sv' (rw (take_sdt, is) at e))
        (record { sdt = right; pmt = v.pmt; next_sdt = partial; next_pmt = v.next_pmt })
]

-- The readers of the PAT and of the SDT leave the sections alone.
pub record Same (sv sv' : Service) : Type 0 where
  pub pmt : sv'.pmt ≡ sv.pmt
  pub sdt : sv'.sdt ≡ sv.sdt
  pub next_pmt : sv'.next_pmt ≡ sv.next_pmt
  pub next_sdt : sv'.next_sdt ≡ sv.next_sdt

pub Same-refl : (sv : Service) → Same sv sv
Same-refl sv = record { pmt = refl; sdt = refl; next_pmt = refl; next_sdt = refl }

pub Same-trans : {a b c : Service} → Same a b → Same b c → Same a c
Same-trans p q = record {
  pmt = q.pmt ∙ p.pmt;
  sdt = q.sdt ∙ p.sdt;
  next_pmt = q.next_pmt ∙ p.next_pmt;
  next_sdt = q.next_sdt ∙ p.next_sdt;
}

pub Same-Verified : {sv sv' : Service} → Same sv sv' → Verified sv → Verified sv'
Same-Verified same v = record {
  pmt = rw same.pmt v.pmt;
  sdt = rw same.sdt v.sdt;
  next_pmt = rw same.next_pmt v.next_pmt;
  next_sdt = rw same.next_sdt v.next_sdt;
}

pat_programs-Same :
    (n : ℕ) (sv : Service) (buf : Memory) (o : ℕ) → Same sv (pat_programs n sv buf o)
unfolding pat_programs
pat_programs-Same zero sv buf o = Same-refl sv
pat_programs-Same (suc n) sv buf o =
    Same-trans (record { pmt = refl; sdt = refl; next_pmt = refl; next_sdt = refl })
      (pat_programs-Same n _ buf (o + 4))

-- What holds of a result, if there is one.
abbrev pub Always : {A : Type 0} → (A → Type 0) → Option A → Type 0
Always P none = Unit
Always P (some a) = P a

programs-Always :
    (sv : Service) (buf : Memory) (n : Option ℕ)
    → Always (Same sv) (elim n [ none ↦ none | some k ↦ some (pat_programs k sv buf 13) ])
programs-Always sv buf none = tt
programs-Always sv buf (some k) = pat_programs-Same k sv buf 13

pub process_pat-Always : (sv : Service) (buf : Memory) → Always (Same sv) (process_pat sv buf)
unfolding process_pat
process_pat-Always sv buf =
    let section_length = bit_or (bit_and (load buf 6) 0x0f * 2 ^ 8) (load buf 7) in
    elim (Bool-cases (load buf 4 == 0)) [
      | inl plain ↦ elim (Bool-cases (ltb 180 section_length)) [
        | inl long ↦ rw (process_pat, plain, long) tt
        | inr short ↦ elim (Bool-cases (load buf 12 == 0)) [
          | inl single ↦
              rw (process_pat, plain, short, single)
                (programs-Always sv buf (nprograms section_length))
          | inr several ↦ rw (process_pat, plain, short, several) tt
        ]
      ]
      | inr pointed ↦ rw (process_pat, pointed) tt
    ]

pub service_descriptor-Always :
    (sv : Service) (buf : Memory) (k service_id : ℕ)
    → Always (Same sv) (service_descriptor sv buf k service_id)
unfolding service_descriptor
service_descriptor-Always sv buf k service_id =
    let service_name_length = load buf (k + 2 + load buf (k + 1)) in
    elim (Bool-cases (leb 128 service_name_length)) [
      | inl long ↦ rw (service_descriptor, long) tt
      | inr short ↦ elim (Bool-cases (service_id == sv.service_id)) [
        | inl own ↦
            rw (service_descriptor, short, own)
              (record { pmt = refl; sdt = refl; next_pmt = refl; next_sdt = refl })
        | inr other ↦ rw (service_descriptor, short, other) (Same-refl sv)
      ]
    ]
