-- ===== src/Mux/Startup.antt =====
-- dvb2dvb.c, `init_service` and `sync_to_pcr`: the tables of a service, and its first clock.
-- The input is the list of the packets that `rb_read` delivers, one after the other.
pub mod Sync
pub mod Verified
pub mod Tables
pub mod Ready
use dvb2dvb.Base.{◌==◌, ◌&&◌, ◌||◌, if◌then◌else◌, List, [], ◌∷◌, Option, some, none}
use dvb2dvb.Base.Memory.{Memory, memcpy}
use dvb2dvb.Types.{Service}
use dvb2dvb.PsiRead.Sections.{process_section}
use dvb2dvb.PsiRead.Pat.{process_pat}
use dvb2dvb.PsiRead.Sdt.{Sdt, exited, processed, undefined, process_sdt}
use dvb2dvb.PsiRead.Pmt.{process_pmt}
use dvb2dvb.PsiCreate.Pmt.{create_pmt}
use dvb2dvb.PsiCreate.Ait.{create_ait}
use dvb2dvb.Mux.Continuity.{packet_pid, check_cc}
use dvb2dvb.Mux.Pcr.{has_pcr, pcr}

-- The function waits for more packets, or has returned with the packets that are left; or the process
-- has exited, or made an access that C leaves undefined.
pub data Outcome : Type 0 where
  waiting : Outcome
  exits : Outcome
  breaks : Outcome
  returned : Service → List Memory → Outcome

-- The counters after a packet.
unfoldable pub checked : Service → Memory → Service
unfolding check_cc
checked sv p = record sv { my_cc = (check_cc sv.my_cc p).0 }

-- The first loop, up to the first PAT, whether that is supported or not.
unfoldable pub find_pat : List Memory → Service → Outcome
unfolding checked
find_pat [] sv = waiting
find_pat (p ∷ ps) sv =
    let sv1 = checked sv p in
    let found : Service = elim (process_pat sv1 p) [ none ↦ sv1 | some sv2 ↦ sv2 ] in
    let rest = find_pat ps sv1 in if packet_pid p == 0 then returned found ps else rest

-- `none` where C leaves an access undefined.
unfoldable pub take_pmt : Service → Memory → Option Service
take_pmt sv p = elim (process_section sv.next_pmt sv.pmt p 0x02) [
  | none ↦ none
  | some pair ↦ some (record sv { next_pmt = pair.next; pmt = pair.curr })
]

unfoldable pub take_sdt : Service → Memory → Option Service
take_sdt sv p = elim (process_section sv.next_sdt sv.sdt p 0x42) [
  | none ↦ none
  | some pair ↦ some (record sv { next_sdt = pair.next; sdt = pair.curr })
]

-- One packet of the second loop.
unfoldable pub take_table : Service → Memory → Sdt
unfolding take_pmt take_sdt
take_table sv p =
    let pid = packet_pid p in
    if pid == sv.pmt_pid
    then (elim (take_pmt sv p) [ none ↦ undefined | some sv' ↦ processed sv' ])
    else if pid == 17
    then (elim (take_sdt sv p) [
      | none ↦ undefined
      | some sv' ↦ if sv'.sdt.length == 0 then processed sv' else process_sdt sv'
    ])
    else processed sv

-- The second loop, up to a PMT and an SDT.
unfoldable pub read_tables : List Memory → Service → Outcome
unfolding checked take_table
read_tables [] sv = if sv.pmt.length == 0 || sv.sdt.length == 0 then waiting else returned sv []
read_tables (p ∷ ps) sv =
    let next : Outcome = elim (take_table (checked sv p) p) [
      | exited ↦ exits
      | undefined ↦ breaks
      | processed sv' ↦ read_tables ps sv'
    ] in
    if sv.pmt.length == 0 || sv.sdt.length == 0 then next else returned sv (p ∷ ps)

-- The tables of the output that `init_service` makes when its loops are over. `create_ait` takes the
-- URL, which `process_pmt` has found where it sets `ait_pid`: `none` is a NULL that is used as one.
unfoldable pub make_tables : Service → Option Service
make_tables sv =
    let sv1 = create_pmt (process_pmt sv) in
    if sv1.ait_pid == 0
    then some sv1
    else (elim sv1.hbbtv.url [ none ↦ none | some url ↦ some (create_ait sv1 url) ])

unfoldable pub init_service : List Memory → Service → Outcome
unfolding find_pat read_tables make_tables
init_service ps sv = elim (find_pat ps sv) [
  | returned sv1 ps1 ↦ elim (read_tables ps1 sv1) [
    | returned sv2 ps2 ↦ elim (make_tables sv2) [ none ↦ breaks | some sv3 ↦ returned sv3 ps2 ]
    | waiting ↦ waiting
    | exits ↦ exits
    | breaks ↦ breaks
  ]
  | waiting ↦ waiting
  | exits ↦ exits
  | breaks ↦ breaks
]

-- The packet that ends `sync_to_pcr` gives the service its first clock, and is the first in its buffer.
unfoldable pub start_clock : Service → Memory → Service
start_clock sv p = record sv {
  start_pcr = pcr p;
  second_pcr = pcr p;
  buf = memcpy sv.buf 0 p 0 188;
  packets_in_buf = 1;
}

unfoldable pub sync_to_pcr : List Memory → Service → Outcome
unfolding checked take_pmt take_sdt start_clock
sync_to_pcr [] sv = waiting
sync_to_pcr (p ∷ ps) sv =
    let sv1 = checked sv p in
    let pid = packet_pid p in
    let on_pmt : Outcome = elim (take_pmt sv1 p) [
      | none ↦ breaks
      | some sv' ↦ sync_to_pcr ps sv'
    ] in
    let on_sdt : Outcome = elim (take_sdt sv1 p) [
      | none ↦ breaks
      | some sv' ↦ sync_to_pcr ps sv'
    ] in
    let rest = sync_to_pcr ps sv1 in
    if pid == sv.pmt_pid
    then on_pmt
    else if pid == 17
    then on_sdt
    else if pid == sv.pcr_pid && has_pcr p
    then returned (start_clock sv1 p) ps
    else rest
