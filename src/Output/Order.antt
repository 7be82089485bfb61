-- ===== src/Output/Order.antt =====
-- The bytes that reach the device, over many rounds of the transfer loop.
use mathlib.Core.Path.{subst}
use mathlib.Core.List.{append_assoc}
use dvb2dvb.Base.{
  ℕ, zero, suc, ◌+◌, ◌*◌, ◌≤◌, ◌<◌, ◌≡◌, refl, ap, ◌∙◌, arith, true, List, ◌++◌, length,
  length-append, some,
}
use dvb2dvb.Base.Memory.{slice, length-slice}
use dvb2dvb.RingBuffer.{RingBuffer}
use dvb2dvb.RingBuffer.Used.{used}
use dvb2dvb.RingBuffer.Contents.{contents}
use dvb2dvb.RingBuffer.Wait.{total, offered, IsStraight, rb_read-Reads}
use dvb2dvb.Output.{after_write, Thread, buf_size, transfer, transfers}
use dvb2dvb.Output.Device.{taken, write_ok, write_loop-Sends}

-- The bytes that are on their way to the device, those that the other thread still offers included.
abbrev pub pending : Thread → List ℕ
pending th = contents th.ring ++ offered th.calls

-- The ring has not gone round its end, and `write` keeps to its documentation.
pub record IsRunning (th : Thread) : Type 0 where
  pub straight : IsStraight th.ring (total th.calls)
  pub ok : write_ok buf_size th.results ≡ true

-- There is enough for so many bytes: in the ring or offered, and among the results of `write`.
pub record Enough (th : Thread) (n : ℕ) : Type 0 where
  pub bytes : n < used th.ring + total th.calls
  pub writes : n ≤ taken th.results

-- Bytes of one state have moved on, n of them to the device, in order.
pub record Moved (th th' : Thread) (n : ℕ) : Type 0 where
  pub running : IsRunning th'
  pub order : th'.sent ++ pending th' ≡ th.sent ++ pending th
  pub amount : length th'.sent ≡ length th.sent + n
  pub bytes_left : n + (used th'.ring + total th'.calls) ≡ used th.ring + total th.calls
  pub writes_left : taken th.results ≡ n + taken th'.results

transfer-Moved :
    (th : Thread)
    → IsRunning th
    → Enough th buf_size
    → (th' : Thread) × (transfer th ≡ some th') × Moved th th' buf_size
unfolding transfer
transfer-Moved th running enough =
    let r = rb_read-Reads th.calls th.ring th.buf buf_size running.straight enough.bytes in
    let (results, ends, ok, writes) =
      write_loop-Sends th.results r.dst' 0 buf_size th.sent (omega arith) running.ok
        enough.writes in
    (
      record {
        ring = r.ring;
        calls = r.left;
        buf = r.dst';
        sent = th.sent ++ slice r.dst' 0 buf_size;
        results = results;
      },
      rw (r.returns, transfer) (ap (after_write r.ring r.left r.dst') ends),
      record {
        running = record { straight = r.straight; ok = ok };
        order =
            append_assoc th.sent (slice r.dst' 0 buf_size) (contents r.ring ++ offered r.left)
            ∙ ap (λ l. th.sent ++ l) r.kept;
        amount =
            length-append th.sent (slice r.dst' 0 buf_size)
            ∙ ap (λ n. length th.sent + n) (length-slice r.dst' 0 buf_size);
        bytes_left = r.counted;
        writes_left = writes;
      },
    )

Moved-trans : (a b c : Thread) (m n : ℕ) → Moved a b m → Moved b c n → Moved a c (m + n)
Moved-trans a b c m n p q = record {
  running = q.running;
  order = q.order ∙ p.order;
  amount = omega (arith, p.amount, q.amount);
  bytes_left = omega (arith, p.bytes_left, q.bytes_left);
  writes_left = omega (arith, p.writes_left, q.writes_left);
}

pub transfers-Moved :
    (k : ℕ) (th : Thread)
    → IsRunning th
    → Enough th (k * buf_size)
    → (th' : Thread) × (transfers k th ≡ some th') × Moved th th' (k * buf_size)
unfolding transfers
transfers-Moved zero th running enough = (
  th,
  refl,
  record {
    running = running;
    order = refl;
    amount = omega arith;
    bytes_left = omega arith;
    writes_left = omega arith;
  },
)
transfers-Moved (suc k) th running enough =
    let (mid, first, moved) =
      transfer-Moved th running
        (record { bytes = omega (arith, enough.bytes); writes = omega (arith, enough.writes) }) in
    let (th', others, moved') = transfers-Moved k mid moved.running (record {
      bytes = omega (arith, moved.bytes_left, enough.bytes);
      writes = omega (arith, moved.writes_left, enough.writes);
    }) in
    (
      th',
      rw (first, transfers) others,
      subst (λ (n : ℕ). Moved th th' n) {x = buf_size + k * buf_size} {y = suc k * buf_size}
          (omega arith) (Moved-trans th mid th' buf_size (k * buf_size) moved moved'),
    )
