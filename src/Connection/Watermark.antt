-- ===== src/Connection/Watermark.antt =====
-- src/net/Connection.cpp: the high-water mark of the output.
use protobase.Common.{
  ℕ, ◌+◌, ◌<◌, ◌≤◌, ◌≡◌, ◌∙◌, refl, ap, Bool, true, false, List, [], ◌∷◌, ◌++◌, append-nil, if_then,
  arith, ◌&&◌, ltb, length, length-append, add_size, add_size-eq, size_max, le→ltb_false, lt→ltb,
}
use protobase.Channel.{is_writing}
use protobase.Buffer.Fd.{WriteResult}
use protobase.Connection.{Connection, Errno, Queued, high_water, is_disconnected, queue_if}
use protobase.Connection.Send.{behind, start_writing, keep_rest, write_now, send_in_loop}

-- A send on a connection that waits to write only lengthens its output.
pub send-busy :
    (m : List ℕ) (r : WriteResult) (e : Errno) (c : Connection)
    → is_disconnected c.state ≡ false
    → is_writing c.channel ≡ true
    → send_in_loop m r e c ≡ keep_rest m c
unfolding send_in_loop write_now
send-busy m r e c live busy = rw (live, busy, write_now) refl

pub keep_rest-busy :
    (b : ℕ) (m : List ℕ) (c : Connection)
    → is_writing c.channel ≡ true
    → keep_rest (b ∷ m) c ≡ behind (b ∷ m) c
unfolding keep_rest start_writing
keep_rest-busy b m c busy = if_then {b = is_writing c.channel} (behind (b ∷ m) c) _ busy

-- The messages of sends in a row.
abbrev pub send_all : List (List ℕ) → WriteResult → Errno → Connection → Connection
send_all [] r e c = c
send_all (m ∷ ms) r e c = send_all ms r e (send_in_loop m r e c)

-- `c'` is `c` with at most more output.
record Grown (c c' : Connection) : Type 0 where
  queued : c'.queued ≡ c.queued
  busy : is_writing c'.channel ≡ true
  live : is_disconnected c'.state ≡ false
  mark : c'.high_water_mark ≡ c.high_water_mark
  longer : length c.output ≤ length c'.output

no_queue : (a b d : Bool) (q : Queued) → (a && b) ≡ false → queue_if (a && b && d) q ≡ []
no_queue false b d q h = refl
no_queue true false d q h = refl
no_queue true true d q h = cc

-- The mark is not passed by a message: it was reached before, or is not exceeded now.
abbrev Unpassed : Connection → ℕ → Type 0
Unpassed c n =
    (ltb c.high_water_mark (add_size (length c.output) n)
      && ltb (length c.output) c.high_water_mark)
    ≡ false

above-Unpassed : (c : Connection) (n : ℕ) → c.high_water_mark ≤ length c.output → Unpassed c n
above-Unpassed c n above =
    rw (le→ltb_false (length c.output) c.high_water_mark above)
      (and_false (ltb c.high_water_mark (add_size (length c.output) n)))
  where
    and_false : (a : Bool) → (a && false) ≡ false
    and_false true = refl
    and_false false = refl

send_in_loop-Grown :
    (m : List ℕ) (r : WriteResult) (e : Errno) (c : Connection)
    → is_disconnected c.state ≡ false
    → is_writing c.channel ≡ true
    → Unpassed c (length m)
    → Grown c (send_in_loop m r e c)
unfolding keep_rest
send_in_loop-Grown [] r e c live busy h =
    rw (send-busy [] r e c live busy, keep_rest)
      record { queued = refl; busy = busy; live = live; mark = refl; longer = omega arith }
send_in_loop-Grown (b ∷ m) r e c live busy h =
    rw (send-busy (b ∷ m) r e c live busy, keep_rest-busy b m c busy)
      record {
        queued =
            ap (λ l. c.queued ++ l)
              (no_queue (ltb c.high_water_mark (add_size (length c.output) (length (b ∷ m))))
                (ltb (length c.output) c.high_water_mark) c.has_high_water
                (high_water (add_size (length c.output) (length (b ∷ m)))) h)
            ∙ append-nil c.queued;
        busy = busy;
        live = live;
        mark = refl;
        longer = omega (arith, length-append c.output (b ∷ m));
      }

send_all-above :
    (ms : List (List ℕ)) (r : WriteResult) (e : Errno) (c : Connection)
    → is_disconnected c.state ≡ false
    → is_writing c.channel ≡ true
    → c.high_water_mark ≤ length c.output
    → (send_all ms r e c).queued ≡ c.queued
send_all-above [] r e c live busy above = refl
send_all-above (m ∷ ms) r e c live busy above =
    let g = send_in_loop-Grown m r e c live busy (above-Unpassed c (length m) above) in
    send_all-above ms r e (send_in_loop m r e c) g.live g.busy (omega (arith, g.mark, g.longer))
    ∙ g.queued

-- On a connection that is not `kDisconnected` and waits to write, a message that fills the output to
-- exactly its high-water mark queues nothing, and no message after it queues the high-water
-- callback, however long the output grows. The mark is below 2^64.
pub high_water_missed :
    (b : ℕ) (m : List ℕ) (ms : List (List ℕ)) (r : WriteResult) (e : Errno) (c : Connection)
    → is_disconnected c.state ≡ false
    → is_writing c.channel ≡ true
    → length c.output + length (b ∷ m) ≡ c.high_water_mark
    → c.high_water_mark < size_max
    → (send_all ((b ∷ m) ∷ ms) r e c).queued ≡ c.queued
high_water_missed b m ms r e c live busy full small =
    let size : add_size (length c.output) (length (b ∷ m)) ≡ c.high_water_mark =
      add_size-eq (length c.output) (length (b ∷ m)) (omega arith) ∙ full in
    let reached : Unpassed c (length (b ∷ m)) =
      rw (size, le→ltb_false c.high_water_mark c.high_water_mark (omega arith)) refl in
    let g = send_in_loop-Grown (b ∷ m) r e c live busy reached in
    let long : length (send_in_loop (b ∷ m) r e c).output ≡ c.high_water_mark =
      ap (λ d. length d.output) (send-busy (b ∷ m) r e c live busy ∙ keep_rest-busy b m c busy)
      ∙ length-append c.output (b ∷ m)
      ∙ full in
    send_all-above ms r e (send_in_loop (b ∷ m) r e c) g.live g.busy (omega (arith, g.mark, long))
    ∙ g.queued

-- A message that takes the output of such a connection from below the mark to above it queues the
-- high-water callback, if there is one, with the new length. The new length is below 2^64.
pub high_water_crossed :
    (b : ℕ) (m : List ℕ) (r : WriteResult) (e : Errno) (c : Connection)
    → is_disconnected c.state ≡ false
    → is_writing c.channel ≡ true
    → length c.output < c.high_water_mark
    → c.high_water_mark < length c.output + length (b ∷ m)
    → length c.output + length (b ∷ m) < size_max
    → (send_in_loop (b ∷ m) r e c).queued
      ≡ c.queued
        ++ queue_if c.has_high_water (high_water (length (send_in_loop (b ∷ m) r e c).output))
high_water_crossed b m r e c live busy low high small =
    rw (send-busy (b ∷ m) r e c live busy ∙ keep_rest-busy b m c busy) (
      rw
        (
          add_size-eq (length c.output) (length (b ∷ m)) small,
          lt→ltb c.high_water_mark (length c.output + length (b ∷ m)) high,
          lt→ltb (length c.output) c.high_water_mark low,
          length-append c.output (b ∷ m),
        )
        refl)
