-- ===== src/Connection/Detailed/Handling.antt =====
-- src/net/Connection.cpp: the handlers of the connection with buffers do what those of the one with
-- lists do.
use protobase.Common.{
  ℕ, ◌+◌, ◌*◌, ◌<◌, ◌≡◌, refl, ap, subst, append-nil, ◌&&◌, Option, some, List, [], ◌∷◌, ◌++◌,
  if◌then◌else◌, ◌==◌, ◌>>=◌, ltb, length, take, size_max, if_related,
}
use protobase.Memory.{Heap}
use protobase.Channel.{is_writing}
use protobase.Buffer.{Buffer, readable_bytes, skip}
use protobase.Buffer.Fd.{ReadResult, received, read_failed, read_fd, WriteResult, write_fd}
use protobase.Connection.{Connection, is_disconnecting, message_called, nothing_in, wrote}
use protobase.Connection.Send.{shutdown_in_loop}
use protobase.Connection.Handlers.{on_close, on_error, written_out, told, written, skipped}
use protobase.Connection.Detailed.{Detailed, with_control, write_out, on_write, on_read}
use protobase.Connection.Detailed.Kept.{
  Keeps, empty-Keeps, read_fd-Keeps, offered-Keeps, skip-Keeps,
}
use protobase.Connection.Detailed.Refine.{listed, Stored, Simulates, if_listed, stays, through}

written_out-listed :
    (xs ys : List ℕ) (k : Connection) → listed xs ys (written_out k) ≡ written_out (listed xs ys k)
unfolding written_out shutdown_in_loop
written_out-listed xs ys k =
    if_listed (is_disconnecting k.state) _ _ (if_listed (is_writing (told k).channel) _ _ refl refl)
      refl

-- A callback that takes from the input what `consume` takes from its bytes.
unfoldable pub Acts : (Buffer → Heap → Option (Buffer × Heap)) → (List ℕ → List ℕ) → Type 0
Acts callback consume =
    (xs : List ℕ) (b : Buffer) (h : Heap)
    → Keeps xs b h
    → (r : Buffer × Heap) × (callback b h ≡ some r) × Keeps (consume xs) r.0 r.1

-- The kernel's bytes fit.
unfoldable pub Fits : ReadResult → Buffer → Type 0
Fits read_failed b = Unit {0}
Fits (received bytes) b = b.capacity * 2 + length bytes < size_max

module _ {xs ys : List ℕ} (d : Detailed) (in_kept : Keeps xs d.input d.input_heap)
    (out_kept : Keeps ys d.output d.output_heap) where
  abbrev sent_on : WriteResult → Detailed
  sent_on result = record d {
    control = record d.control { wire = d.control.wire ++ take (wrote result) ys };
    output = skip (write_fd result) d.output;
  }

  write_out-sent : (result : WriteResult) → write_out result d ≡ some (sent_on result)
  unfolding write_out
  write_out-sent result =
      ap
        (λ m. m >>= λ bytes. some (record d {
          control = record d.control { wire = d.control.wire ++ take (wrote result) bytes };
          output = skip (write_fd result) d.output;
        }))
        (offered-Keeps out_kept)

  sent_on-Stored :
      (result : WriteResult) → Stored (sent_on result) (written result (listed xs ys d.control))
  unfolding written
  sent_on-Stored result = record {
    unread = xs;
    unsent = skipped (write_fd result) ys;
    input = in_kept;
    output = skip-Keeps out_kept (write_fd result);
    same = refl;
  }

  all_out-Stored :
      (result : WriteResult)
      → Stored
          (with_control (written_out (sent_on result).control) (sent_on result))
          (written_out (written result (listed xs ys d.control)))
  unfolding written
  all_out-Stored result = record {
    unread = xs;
    unsent = skipped (write_fd result) ys;
    input = in_kept;
    output = skip-Keeps out_kept (write_fd result);
    same = written_out-listed xs (skipped (write_fd result) ys) (sent_on result).control;
  }

  sent_empty :
      (result : WriteResult)
      → (readable_bytes (sent_on result).output == 0)
        ≡ nothing_in (written result (listed xs ys d.control)).output
  unfolding written
  sent_empty result = empty-Keeps (skip-Keeps out_kept (write_fd result))

  pub on_write-Simulates :
      (result : WriteResult)
      → Simulates
          (on_write result d)
          (protobase.Connection.Handlers.on_write result (listed xs ys d.control))
  unfolding on_write protobase.Connection.Handlers.on_write
  on_write-Simulates result =
      if_related Simulates {b = is_writing d.control.channel && ltb 0 (write_fd result)}
        {b' = is_writing d.control.channel && ltb 0 (write_fd result)} refl
        (through
          (ap
            (λ m. m >>= λ d'. some (
              if readable_bytes d'.output == 0
              then with_control (written_out d'.control) d'
              else d'))
            (write_out-sent result))
          (if_related (λ a c. Simulates (some a) c) (sent_empty result)
            (stays _ _ (all_out-Stored result)) (stays _ _ (sent_on-Stored result))))
        (stays d (listed xs ys d.control)
          (record { unread = xs; unsent = ys; input = in_kept; output = out_kept; same = refl }))

  -- The input after a read.
  abbrev with_input : Connection → Buffer × Heap → Detailed
  with_input k r = record d { control = k; input = r.0; input_heap = r.1 }

  with_input-Stored :
      {zs : List ℕ} (k : Connection) (r : Buffer × Heap)
      → Keeps zs r.0 r.1
      → Stored (with_input k r) (listed zs ys k)
  with_input-Stored {zs} k r kept = record {
    unread = zs;
    unsent = ys;
    input = kept;
    output = out_kept;
    same = refl;
  }

  closed-listed : (k : Connection) → listed xs ys (on_close k) ≡ on_close (listed xs ys k)
  unfolding on_close
  closed-listed k = refl

  failed-listed : (k : Connection) → listed xs ys (on_error k) ≡ on_error (listed xs ys k)
  unfolding on_error
  failed-listed k = refl

  abbrev told_of : Connection
  told_of = record d.control { called = d.control.called ++ message_called ∷ [] }

  module _ (callback : Buffer → Heap → Option (Buffer × Heap)) (consume : List ℕ → List ℕ)
      (acts : Acts callback consume) where
    callback-Simulates :
        {zs : List ℕ} (r : Buffer × Heap)
        → Keeps zs r.0 r.1
        → Simulates
            (callback r.0 r.1 >>= λ s. some (with_input told_of s))
            (listed (consume zs) ys told_of)
    unfolding Acts
    callback-Simulates {zs} r kept =
        let (s, e, kept') = acts zs r.0 r.1 kept in
        through (ap (λ m. m >>= λ s. some (with_input told_of s)) e)
          (stays _ _ (with_input-Stored told_of s kept'))

    pub on_read-Simulates :
        (result : ReadResult)
        → Fits result d.input
        → Simulates
            (on_read callback result d)
            (protobase.Connection.Handlers.on_read result consume (listed xs ys d.control))
    unfolding Fits on_read protobase.Connection.Handlers.on_read read_fd on_close on_error
    on_read-Simulates read_failed fits =
        stays _ _ (with_input-Stored (on_error d.control) (d.input, d.input_heap) in_kept)
    on_read-Simulates (received []) fits =
        let (r, e, kept) = read_fd-Keeps in_kept [] fits in
        through (ap (λ m. m >>= λ r. some (with_input (on_close d.control) r)) e) (
          stays _ _ (
            with_input-Stored (on_close d.control) r
              (subst (λ ws. Keeps ws r.0 r.1) (append-nil xs) kept)))
    on_read-Simulates (received (z ∷ zs)) fits =
        let (r, e, kept) = read_fd-Keeps in_kept (z ∷ zs) fits in
        through
          (ap
            (λ m. m >>= λ r.
              if d.control.has_message
              then (callback r.0 r.1 >>= λ s. some (with_input told_of s))
              else some (with_input d.control r))
            e)
          (if_related Simulates refl (callback-Simulates r kept)
            (stays _ _ (with_input-Stored d.control r kept)))
