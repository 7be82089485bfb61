-- ===== src/Mux/Input/Places.antt =====
-- The places in the output that `refill` computes for the packets between two clocks.
use dvb2dvb.Base.{ℕ, ◌+◌, ◌-◌, ◌*◌, ◌/◌, ◌≤◌, ◌<◌, ◌≡◌, refl, ap, ◌∙◌, arith}
use dvb2dvb.Base.Int.{pos, ◌≤ℤ◌, ◌/ℤ◌, sub_ℕ-pos, *ℤ-pos, +ℤ-pos, -ℤ-pos}
use native.Mathlib.Nat
use dvb2dvb.Types.{Service, Mux}
use dvb2dvb.Mux.Input.{packet_bitpos}

-- The clock of packet j, from the first clock of the stream on.
abbrev elapsed : Service → ℕ → ℕ
elapsed sv j =
    sv.first_pcr + j * (sv.second_pcr - sv.first_pcr) / (sv.packets_in_buf - 1) - sv.start_pcr

packet_bitpos-eq :
    (mux : Mux) (sv : Service) (j : ℕ)
    → sv.start_pcr ≤ sv.first_pcr
    → sv.first_pcr ≤ sv.second_pcr
    → packet_bitpos mux sv j ≡ pos (elapsed sv j * mux.channel_capacity / 27000000)
unfolding packet_bitpos ◌/ℤ◌
packet_bitpos-eq mux sv j h h' = rw (sub_ℕ-pos sv.second_pcr sv.first_pcr h') (
    rw (*ℤ-pos j (sv.second_pcr - sv.first_pcr)) (
      rw (+ℤ-pos sv.first_pcr (j * (sv.second_pcr - sv.first_pcr) / (sv.packets_in_buf - 1))) (
        rw
          (-ℤ-pos (sv.first_pcr + j * (sv.second_pcr - sv.first_pcr) / (sv.packets_in_buf - 1))
            sv.start_pcr (omega arith))
          (rw (*ℤ-pos (elapsed sv j) mux.channel_capacity) refl))))

div-le-div : (a b d : ℕ) → 0 < d → a ≤ b → a / d ≤ b / d
div-le-div a b d hd h = (Nat.le-div_iff_mul-le hd).1 (omega (arith, Nat.div-mul-le_self a d))

elapsed-monotone :
    (sv : Service) (i j : ℕ) → 1 < sv.packets_in_buf → i ≤ j → elapsed sv i ≤ elapsed sv j
elapsed-monotone sv i j h le =
    let d = sv.second_pcr - sv.first_pcr in
    omega (
      arith,
      div-le-div (i * d) (j * d) (sv.packets_in_buf - 1) (omega arith) (Nat.mul-le-mul_right d le),
    )

-- Between two clocks that do not go back, the first of them no earlier than the start of the stream, and
-- with two packets at least, the first packet has the place of the first clock in the output, the
-- last one that of the second clock, and the packets stand in their order.
pub packet_bitpos_monotone :
    (mux : Mux) (sv : Service) (i j : ℕ)
    → sv.start_pcr ≤ sv.first_pcr
    → sv.first_pcr ≤ sv.second_pcr
    → 1 < sv.packets_in_buf
    → i ≤ j
    → (packet_bitpos mux sv i ≤ℤ packet_bitpos mux sv j)
      × (packet_bitpos mux sv 0
          ≡ pos ((sv.first_pcr - sv.start_pcr) * mux.channel_capacity / 27000000))
      × (packet_bitpos mux sv (sv.packets_in_buf - 1)
          ≡ pos ((sv.second_pcr - sv.start_pcr) * mux.channel_capacity / 27000000))
packet_bitpos_monotone mux sv i j h h' many le =
    let d = sv.second_pcr - sv.first_pcr in
    let n = sv.packets_in_buf - 1 in
    let place = λ (t : ℕ). pos (t * mux.channel_capacity / 27000000) in
    let last : n * d / n ≡ d = Nat.mul-div_cancel_left d (omega arith) in
    let zeroth : 0 * d / n ≡ 0 = omega arith in
    (
      rw (packet_bitpos-eq mux sv i h h') (
          rw (packet_bitpos-eq mux sv j h h') (
            omega (
              arith,
              div-le-div (elapsed sv i * mux.channel_capacity) (elapsed sv j * mux.channel_capacity)
                  27000000 (omega arith)
                  (Nat.mul-le-mul_right mux.channel_capacity (elapsed-monotone sv i j many le)),
            ))),
      packet_bitpos-eq mux sv 0 h h'
          ∙ ap place {x = elapsed sv 0} {y = sv.first_pcr - sv.start_pcr} (omega (arith, zeroth)),
      packet_bitpos-eq mux sv n h h'
          ∙ ap place {x = elapsed sv n} {y = sv.second_pcr - sv.start_pcr} (omega (arith, last)),
    )
