-- ===== src/Mux/Schedule/Padding.antt =====
-- The null packets before the next packet of the main loop.
use dvb2dvb.Base.{ℕ, zero, suc, ◌+◌, ◌*◌, ◌≤◌, ◌≡◌, ◌⊎◌, refl, arith, inl, inr, Bool-cases}
use dvb2dvb.Base.Int.{ℤ, pos, pos_part, ◌≤ℤ◌, ◌<ℤ◌, ltb_ℤ}
use dvb2dvb.Base.Memory.{Memory}
use dvb2dvb.Mux.Schedule.{null_packet, pad_loop, pad, Positions}

module _ {S : Type 0} (write : S → Memory → S) where
  -- The output after k null packets.
  abbrev pub after_nulls : ℕ → S → S
  after_nulls zero out = out
  after_nulls (suc k) out = after_nulls k (write out null_packet)

  -- Enough of them: the place is reached, and without the last one it was not.
  abbrev pub Reaches : ℤ → ℕ → ℕ → Type 0
  Reaches next_bitpos output_bitpos k =
      (next_bitpos ≤ℤ pos (output_bitpos + k * 1504))
      × ((k ≡ 0) ⊎ (pos (output_bitpos + k * 1504) <ℤ pos (pos_part next_bitpos + 1504)))

  pad_loop_outputs :
      (fuel : ℕ) (next_bitpos : ℤ) (output_bitpos : ℕ) (out : S)
      → let r = pad_loop write fuel next_bitpos output_bitpos out in r.0 ≡ after_nulls r.1 out
  unfolding pad_loop
  pad_loop_outputs zero next_bitpos output_bitpos out = refl
  pad_loop_outputs (suc fuel) next_bitpos output_bitpos out =
      elim (Bool-cases (ltb_ℤ (pos output_bitpos) next_bitpos)) [
        | inl before ↦
            rw before
              (pad_loop_outputs fuel next_bitpos (output_bitpos + 188 * 8) (write out null_packet))
        | inr reached ↦ rw reached refl
      ]

  pad_loop-Reaches :
      (fuel : ℕ) (next_bitpos : ℤ) (output_bitpos : ℕ) (out : S)
      → pos_part next_bitpos ≤ fuel + output_bitpos
      → Reaches next_bitpos output_bitpos (pad_loop write fuel next_bitpos output_bitpos out).1
  unfolding pad_loop
  pad_loop-Reaches zero next_bitpos output_bitpos out h = (ground arith, inl refl)
  pad_loop-Reaches (suc fuel) next_bitpos output_bitpos out h =
      elim (Bool-cases (ltb_ℤ (pos output_bitpos) next_bitpos)) [
        | inl before ↦
            let ih =
              pad_loop-Reaches fuel next_bitpos (output_bitpos + 188 * 8) (write out null_packet)
                (ground arith) in
            rw before (ground (arith, ih.0), inr (ground (arith, ih.0, ih.1)))
        | inr reached ↦ rw reached (ground arith, inl refl)
      ]

  -- The loop of null packets ends with k of them written, and with the output at or behind the place of
  -- the next packet: none is written if it was there before, and otherwise it is behind by less than
  -- a packet. Both counts of bits go on by 1504 for each packet; the other variables stay.
  pub pad_lem :
      (next_bitpos : ℤ) (at : Positions) (out : S)
      → let (out', at') = pad write next_bitpos at out in
        (k : ℕ) × (out' ≡ after_nulls k out)
        × Reaches next_bitpos at.output_bitpos k
        × (at' ≡ record at {
          output_bitpos = at.output_bitpos + k * 1504;
          padding_bits = at.padding_bits + k * 1504;
        })
  unfolding pad
  pad_lem next_bitpos at out =
      let fuel = pos_part next_bitpos in
      (
        (pad_loop write fuel next_bitpos at.output_bitpos out).1,
        pad_loop_outputs fuel next_bitpos at.output_bitpos out,
        pad_loop-Reaches fuel next_bitpos at.output_bitpos out (omega arith),
        refl,
      )
