-- ===== src/RingBuffer/Wait.antt =====
-- The waiting loop of `rb_read`, against the calls that the writing thread makes meanwhile.
use dvb2dvb.Base.{
  ℕ, ◌+◌, ◌<◌, ◌≤◌, ◌≡◌, refl, ap, ap₂, sym, ◌∙◌, arith, leb, List, [], ◌∷◌, ◌++◌, take, drop,
  Bool-cases, inl, inr, some, take-append-drop,
}
use mathlib.Core.List.{append_assoc}
use dvb2dvb.Base.Memory.{Memory, slice}
use dvb2dvb.RingBuffer.{
  RingBuffer, capacity, rb_get_bytes_used, rb_take, Call, rb_poll, rb_read, rb_write,
}
use dvb2dvb.RingBuffer.Used.{IsValid, used, excess, rb_get_bytes_used_direct}
use dvb2dvb.RingBuffer.Contents.{contents}
use dvb2dvb.RingBuffer.Write.{Appends, rb_write-Appends}
use dvb2dvb.RingBuffer.Read.{rb_take_lem}

-- How many bytes the calls offer, and which.
abbrev pub total : List Call → ℕ
total [] = 0
total (c ∷ calls) = c.count + total calls

abbrev pub offered : List Call → List ℕ
offered [] = []
offered (c ∷ calls) = slice c.src 0 c.count ++ offered calls

-- A ring that has not gone round the end, with room for n more bytes before it does.
pub record IsStraight (rb : RingBuffer) (n : ℕ) : Type 0 where
  pub ordered : rb.head ≤ rb.tail
  pub room : rb.tail + n < capacity

IsStraight-IsValid : {rb : RingBuffer} {n : ℕ} → IsStraight rb n → IsValid rb
IsStraight-IsValid s = omega arith

reported : {rb : RingBuffer} {n : ℕ} → IsStraight rb n → rb_get_bytes_used rb ≡ used rb
reported s = rb_get_bytes_used_direct (IsStraight-IsValid s) s.ordered

appends : {rb : RingBuffer} {n : ℕ} (c : Call) → IsStraight rb n → Appends rb c.src c.count
appends c s = rb_write-Appends c.src c.count (IsStraight-IsValid s) (omega (arith, reported s))

module _ {rb : RingBuffer} (c : Call) (n : ℕ) (s : IsStraight rb (c.count + n)) where
  all_written : (rb_write rb c.src c.count).0 ≡ c.count
  all_written = ground (arith, (appends c s).written, reported s)

  rb_write-IsStraight : IsStraight (rb_write rb c.src c.count).1 n
  rb_write-IsStraight = ground (
    arith,
    (appends c s).head_kept,
    (appends c s).used_after,
    (appends c s).valid.tail_in,
    all_written,
  )

  contents-rb_write : contents (rb_write rb c.src c.count).1 ≡ contents rb ++ slice c.src 0 c.count
  contents-rb_write = (appends c s).appended ∙ ap (λ k. contents rb ++ slice c.src 0 k) all_written

-- What the waiting loop ends on.
pub record Polled (calls : List Call) (rb : RingBuffer) (count : ℕ) : Type 0 where
  pub ring : RingBuffer
  pub left : List Call
  pub ends : rb_poll calls rb count ≡ some (ring, left)
  pub enough : count < used ring
  pub valid : IsValid ring
  pub straight : IsStraight ring (total left)
  pub counted : used ring + total left ≡ used rb + total calls
  pub kept : contents ring ++ offered left ≡ contents rb ++ offered calls

pub rb_poll-Polled :
    (calls : List Call) {rb : RingBuffer} (count : ℕ)
    → IsStraight rb (total calls)
    → count < used rb + total calls
    → Polled calls rb count
unfolding rb_poll
rb_poll-Polled [] {rb} count s more = record {
  ring = rb;
  left = [];
  ends = ground (arith, reported s);
  enough = omega arith;
  valid = IsStraight-IsValid s;
  straight = s;
  counted = refl;
  kept = refl;
}
rb_poll-Polled (c ∷ calls) {rb} count s more =
    elim (Bool-cases (leb (rb_get_bytes_used rb) count)) [
      | inl wait ↦
          let rest =
            rb_poll-Polled calls count (rb_write-IsStraight c (total calls) s)
              (omega (arith, (appends c s).used_after, all_written c (total calls) s)) in
          record {
            ring = rest.ring;
            left = rest.left;
            ends = rw wait rest.ends;
            enough = rest.enough;
            valid = rest.valid;
            straight = rest.straight;
            counted =
                omega
                  (arith, rest.counted, (appends c s).used_after, all_written c (total calls) s);
            kept =
                rest.kept
                ∙ ap (λ l. l ++ offered calls) (contents-rb_write c (total calls) s)
                ∙ append_assoc (contents rb) (slice c.src 0 c.count) (offered calls);
          }
      | inr go ↦ record {
        ring = rb;
        left = c ∷ calls;
        ends = rw go;
        enough = ground (arith, reported s);
        valid = IsStraight-IsValid s;
        straight = s;
        counted = refl;
        kept = refl;
      }
    ]

-- What `rb_read` gives.
pub record Reads (calls : List Call) (rb : RingBuffer) (dst : Memory) (count : ℕ) : Type 0 where
  pub dst' : Memory
  pub ring : RingBuffer
  pub left : List Call
  pub returns : rb_read calls rb dst count ≡ some (dst', ring, left)
  pub straight : IsStraight ring (total left)
  pub counted : count + (used ring + total left) ≡ used rb + total calls
  pub kept : slice dst' 0 count ++ (contents ring ++ offered left) ≡ contents rb ++ offered calls

-- A ring that has not gone round the end stays so when its head moves on.
rb_take-IsStraight :
    {rb : RingBuffer} {n : ℕ} (dst : Memory) (count : ℕ)
    → IsStraight rb n
    → count < used rb
    → let rb' = (rb_take rb dst count).1 in IsStraight rb' n × (count + used rb' ≡ used rb)
unfolding rb_take
rb_take-IsStraight dst count s less =
    (ground (arith, s.ordered, s.room), ground (arith, s.ordered, s.room))

pub rb_read-Reads :
    (calls : List Call) (rb : RingBuffer) (dst : Memory) (count : ℕ)
    → IsStraight rb (total calls)
    → count < used rb + total calls
    → Reads calls rb dst count
unfolding rb_read
rb_read-Reads calls rb dst count s more =
    let p = rb_poll-Polled calls count s more in
    let t = rb_take_lem dst count p.valid (omega (arith, p.enough)) in
    let (straight, counted) = rb_take-IsStraight dst count p.straight p.enough in
    record {
      dst' = (rb_take p.ring dst count).0;
      ring = (rb_take p.ring dst count).1;
      left = p.left;
      returns = rw (p.ends, rb_read);
      straight = straight;
      counted = omega (arith, counted, p.counted);
      kept =
          ap₂ (λ a b. a ++ (b ++ offered p.left)) t.0 t.1
          ∙ sym (
              append_assoc (take count (contents p.ring)) (drop count (contents p.ring))
                (offered p.left))
          ∙ ap (λ l. l ++ offered p.left) (take-append-drop count (contents p.ring))
          ∙ p.kept;
    }

-- As long as the tail does not go round the end of the buffer, `rb_read` returns once the writing
-- thread has offered more bytes than are asked for; what it copies, what the ring then holds and
-- what the calls that are left offer are together, in order, what the ring held before and what
-- all the calls offer.
pub rb_read_lem :
    (calls : List Call) (rb : RingBuffer) (dst : Memory) (count : ℕ)
    → IsStraight rb (total calls)
    → count < used rb + total calls
    → (dst' : Memory) × (rb' : RingBuffer) × (left : List Call) × (rb_read calls rb dst count
        ≡ some (dst', rb', left))
      × (slice dst' 0 count ++ (contents rb' ++ offered left) ≡ contents rb ++ offered calls)
rb_read_lem calls rb dst count s more =
    let r = rb_read-Reads calls rb dst count s more in (r.dst', r.ring, r.left, r.returns, r.kept)

-- On a valid ring whose tail is below its head, `rb_read` does not wait for bytes that are not
-- there, where the count lacks less than 1 MiB: its head then passes the tail, and the ring holds
-- the size of the buffer more than it should.
pub rb_read_underrun :
    {rb : RingBuffer} (calls : List Call) (dst : Memory) (count : ℕ)
    → IsValid rb
    → rb.tail < rb.head
    → used rb < count
    → count < used rb + excess
    → used rb + excess < capacity
    → (rb_read calls rb dst count
        ≡ some ((rb_take rb dst count).0, (rb_take rb dst count).1, calls))
      × (used (rb_take rb dst count).1 + count ≡ used rb + capacity)
unfolding rb_read rb_poll rb_take rb_get_bytes_used
rb_read_underrun [] dst count v w less near small = ground arith
rb_read_underrun (c ∷ calls) dst count v w less near small = ground arith
