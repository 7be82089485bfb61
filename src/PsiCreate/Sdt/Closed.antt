-- ===== src/PsiCreate/Sdt/Closed.antt =====
-- The SDT that `create_sdt` makes is a section.
use dvb2dvb.Base.{
  ℕ, zero, suc, ◌+◌, ◌-◌, ◌*◌, ◌^◌, ◌≤◌, ◌≡◌, refl, ◌∙◌, arith, List, [], ◌∷◌, ltb, ◌==◌,
  Bool-cases, inl, inr,
}
use dvb2dvb.Base.Bits.{bit_or, bit_and}
use dvb2dvb.Base.Memory.{Memory, load, store, load-store}
use dvb2dvb.Types.{Section, Service, Mux}
use dvb2dvb.Transport.{IsSection}
use dvb2dvb.PsiCreate.Put.{put_u16be, load-put_u16be}
use dvb2dvb.PsiCreate.Keeps.{Keeps, Keeps-refl, put_u16be-Keeps, keeps}
use dvb2dvb.PsiCreate.Descriptors.{copy_sdt_descriptors}
use dvb2dvb.PsiCreate.Descriptors.Extends.{Extends, Extends-trans, copy_sdt_descriptors-Extends}
use dvb2dvb.PsiCreate.Seal.{seal-IsSection}
use dvb2dvb.PsiCreate.Sdt.{sdt_entry, sdt_entries, sdt_services, sdt_header, create_sdt}

sdt_entry-Extends :
    (sdt : Memory) (i : ℕ) (service : Service) (j : ℕ) → Extends sdt i (sdt_entry sdt i service j)
unfolding sdt_entry
sdt_entry-Extends sdt i service j =
    let buf = service.sdt.buf in
    let loop_length = bit_or (bit_and (load buf (j + 3)) 0x0f * 2 ^ 8) (load buf (j + 4)) in
    let m2 =
      store (put_u16be sdt i service.new_service_id) (i + 2) (bit_or (bit_or 0xfc (0 * 2)) 1) in
    let r = copy_sdt_descriptors m2 (i + 5) buf (j + 5) loop_length service.onid in
    let x = copy_sdt_descriptors-Extends m2 (i + 5) buf (j + 5) loop_length service.onid in
    let k : Keeps i sdt m2 = search keeps depth 6 in
    record {
      on = omega arith;
      below = λ l b.
          (put_u16be-Keeps (Keeps-refl i r.0) (i + 3) _ (omega arith)).below l b
          ∙ x.below l (omega arith)
          ∙ k.below l b;
    }

pub sdt_entries-Extends :
    (fuel : ℕ) (sdt : Memory) (i : ℕ) (service : Service) (j : ℕ)
    → Extends sdt i (sdt_entries fuel sdt i service j)
unfolding sdt_entries
sdt_entries-Extends zero sdt i service j = record { on = omega arith; below = λ l b. refl }
sdt_entries-Extends (suc fuel) sdt i service j =
    let buf = service.sdt.buf in
    let loop_length = bit_or (bit_and (load buf (j + 3)) 0x0f * 2 ^ 8) (load buf (j + 4)) in
    let service_id = bit_or (load buf j * 2 ^ 8) (load buf (j + 1)) in
    let r = sdt_entry sdt i service j in
    elim (Bool-cases (ltb j (service.sdt.length - 4))) [
      | inl more ↦ elim (Bool-cases (service_id == service.service_id)) [
        | inl taken ↦
            rw (more, taken)
              (Extends-trans r _ (sdt_entry-Extends sdt i service j)
                (sdt_entries-Extends fuel r.0 r.1 service (j + (5 + loop_length))))
        | inr passed ↦
            rw (more, passed) (sdt_entries-Extends fuel sdt i service (j + (5 + loop_length)))
      ]
      | inr done ↦ rw done (record { on = omega arith; below = λ l b. refl })
    ]

pub sdt_services-Extends :
    (services : List Service) (sdt : Memory) (i : ℕ) → Extends sdt i (sdt_services sdt i services)
unfolding sdt_services
sdt_services-Extends [] sdt i = record { on = omega arith; below = λ l b. refl }
sdt_services-Extends (service ∷ services) sdt i =
    let r = sdt_entries service.sdt.length sdt i service 11 in
    Extends-trans r _ (sdt_entries-Extends service.sdt.length sdt i service 11)
      (sdt_services-Extends services r.0 r.1)

load-sdt_header : (mux : Mux) → load (sdt_header mux) 0 ≡ 0x42
unfolding sdt_header
load-sdt_header mux = simp (load-store, load-put_u16be)

-- If the entries that `create_sdt` writes end at byte 4092 at the latest, it makes a section of
-- table 0x42 with a right length field and CRC.
pub create_sdt-IsSection :
    (sdtsec : Section) (mux : Mux)
    → (sdt_services (sdt_header mux) 11 mux.services).1 ≤ 4092
    → IsSection (create_sdt sdtsec mux) 0x42
unfolding create_sdt
create_sdt-IsSection sdtsec mux fits =
    let r = sdt_services (sdt_header mux) 11 mux.services in
    let x = sdt_services-Extends mux.services (sdt_header mux) 11 in
    let tag : load r.0 0 ≡ 0x42 = x.below 0 (omega arith) ∙ load-sdt_header mux in
    seal-IsSection sdtsec r.0 r.1 14 tag (omega (arith, x.on)) (omega arith)
