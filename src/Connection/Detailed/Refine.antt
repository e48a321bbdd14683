-- ===== src/Connection/Detailed/Refine.antt =====
-- src/net/Connection.cpp: the connection with buffers does what the connection with lists of bytes does.
use protobase.Common.{
  ℕ, ◌+◌, ◌*◌, ◌≤◌, ◌<◌, ◌≡◌, ◌∙◌, refl, ap, Bool, true, false, ◌&&◌, not, Option, some, List, ◌++◌,
  if◌then◌else◌, ◌==◌, ◌>>=◌, arith, length, length-drop, size_max, if_related,
}
use protobase.Memory.{Heap}
use protobase.Channel.{is_writing}
use protobase.Buffer.{Buffer, readable_bytes}
use protobase.Buffer.Fd.{WriteResult}
use protobase.Connection.{
  Connection, Errno, nothing_in, is_disconnecting, is_disconnected, on_channel, wrote,
}
use protobase.Connection.Send.{Attempt, write_now, start_writing, keep_rest, shutdown_in_loop}
use protobase.Connection.Detailed.{
  Detailed, with_control, direct_attempt, no_attempt, queue_high_water, try_write, append_rest,
  after_attempt, send_in_loop,
}
use protobase.Connection.Detailed.Kept.{Keeps, readable-Keeps, empty-Keeps, append-Keeps}

-- The connection with lists in place of buffers.
abbrev pub listed : List ℕ → List ℕ → Connection → Connection
listed xs ys k = record k { input = xs; output = ys }

pub record Stored (d : Detailed) (c : Connection) : Type 0 where
  pub unread : List ℕ
  pub unsent : List ℕ
  pub input : Keeps unread d.input d.input_heap
  pub output : Keeps unsent d.output d.output_heap
  pub same : listed unread unsent d.control ≡ c

-- A method does not fault, and leaves what stands for the connection `c`.
pub record Simulates (m : Option Detailed) (c : Connection) : Type 0 where
  pub after : Detailed
  pub gives : m ≡ some after
  pub stored : Stored after c

pub if_listed :
    {xs ys : List ℕ} (b : Bool) (x y : Connection) {u v : Connection}
    → listed xs ys x ≡ u
    → listed xs ys y ≡ v
    → listed xs ys (if b then x else y) ≡ (if b then u else v)
if_listed true x y e e' = e
if_listed false x y e e' = e'

start_writing-listed :
    (xs ys : List ℕ) (k : Connection)
    → listed xs ys (start_writing k) ≡ start_writing (listed xs ys k)
unfolding start_writing
start_writing-listed xs ys k = if_listed (is_writing k.channel) _ _ refl refl

-- A result that is left as it is.
pub stays : (d : Detailed) (c : Connection) → Stored d c → Simulates (some d) c
stays d c v = record { after = d; gives = refl; stored = v }

pub through : {m m' : Option Detailed} {c : Connection} → m ≡ m' → Simulates m' c → Simulates m c
through e v = record { after = v.after; gives = e ∙ v.gives; stored = v.stored }

module _ {xs ys : List ℕ} (d : Detailed) (in_kept : Keeps xs d.input d.input_heap)
    (out_kept : Keeps ys d.output d.output_heap) where
  abbrev appended : List ℕ → Connection → Buffer × Heap → Detailed
  appended rest k r = record d {
    control = start_writing (queue_high_water (readable_bytes d.output) (length rest) k);
    output = r.0;
    output_heap = r.1;
  }

  append_rest-Simulates :
      (rest : List ℕ) (k : Connection)
      → d.output.capacity * 2 + length rest < size_max
      → Simulates (append_rest rest (with_control k d)) (keep_rest rest (listed xs ys k))
  unfolding append_rest keep_rest
  append_rest-Simulates rest k small =
      if_related Simulates {b = nothing_in rest} {b' = nothing_in rest} refl
        (stays (with_control k d) (listed xs ys k)
          (record { unread = xs; unsent = ys; input = in_kept; output = out_kept; same = refl }))
        (let (r, e, kept) = append-Keeps out_kept rest small in
          record {
            after = appended rest k r;
            gives = ap (λ m. m >>= λ r. some (appended rest k r)) e;
            stored = record {
              unread = xs;
              unsent = ys ++ rest;
              input = in_kept;
              output = kept;
              same =
                  start_writing-listed xs (ys ++ rest)
                    (queue_high_water (readable_bytes d.output) (length rest) k)
                  ∙ ap
                      (λ n.
                        start_writing (listed xs (ys ++ rest) (queue_high_water n (length rest) k)))
                      (readable-Keeps out_kept);
            };
          })

  after-Simulates :
      (message : List ℕ) (a : Attempt)
      → d.output.capacity * 2 + length message < size_max
      → length a.rest ≤ length message
      → Simulates (after_attempt d a) (
          if a.fault
          then listed xs ys a.connection
          else keep_rest a.rest (listed xs ys a.connection))
  unfolding after_attempt
  after-Simulates message a small le =
      if_related Simulates {b = a.fault} {b' = a.fault} refl
        (stays (with_control a.connection d) (listed xs ys a.connection)
          (record { unread = xs; unsent = ys; input = in_kept; output = out_kept; same = refl }))
        (append_rest-Simulates a.rest a.connection (omega (arith, small, le)))

  pub send_in_loop-Simulates :
      (message : List ℕ) (result : WriteResult) (errno : Errno)
      → d.output.capacity * 2 + length message < size_max
      → Simulates
          (send_in_loop message result errno d)
          (protobase.Connection.Send.send_in_loop message result errno (listed xs ys d.control))
  unfolding send_in_loop protobase.Connection.Send.send_in_loop try_write write_now
  send_in_loop-Simulates message result errno small =
      if_related Simulates {b = is_disconnected d.control.state}
        {b' = is_disconnected d.control.state} refl
        (stays d (listed xs ys d.control)
          (record { unread = xs; unsent = ys; input = in_kept; output = out_kept; same = refl }))
        (if_related
          (λ (a a' : Attempt).
            Simulates (after_attempt d a)
              (if a'.fault then a'.connection else keep_rest a'.rest a'.connection))
          {b = not (is_writing d.control.channel) && (readable_bytes d.input == 0)}
          {b' = not (is_writing d.control.channel) && nothing_in xs}
          (ap (λ t. not (is_writing d.control.channel) && t) (empty-Keeps in_kept))
          (after-Simulates message (direct_attempt message result errno d.control) small
            (omega (arith, length-drop (wrote result) message)))
          (after-Simulates message (no_attempt message d.control) small (omega arith)))
