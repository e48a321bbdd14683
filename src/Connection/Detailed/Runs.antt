-- ===== src/Connection/Detailed/Runs.antt =====
-- src/net/Connection.cpp: any number of calls of the connection with buffers, against the one with lists.
use protobase.Common.{
  ℕ, ◌+◌, ◌*◌, ◌<◌, ◌≡◌, refl, ap, subst, Bool, ◌||◌, Option, some, List, [], ◌∷◌, ◌>>=◌, length,
  size_max,
}
use protobase.Memory.{Heap}
use protobase.Channel.{is_writing}
use protobase.Poller.{disable_all, remove}
use protobase.Buffer.{Buffer}
use protobase.Buffer.Fd.{ReadResult, WriteResult}
use protobase.Connection.{
  Connection, Errno, is_connected, is_disconnecting, k_disconnected, on_channel,
}
use protobase.Connection.Send.{shutdown, shutdown_in_loop}
use protobase.Connection.Handlers.{
  on_close, on_error, force_close, force_close_in_loop, on_connection_establish,
  on_connection_destroy,
}
use protobase.Connection.Detailed.{Detailed, with_control, send_in_loop, on_write, on_read}
use protobase.Connection.Detailed.Refine.{
  listed, Stored, Simulates, if_listed, stays, through, send_in_loop-Simulates,
}
use protobase.Connection.Detailed.Handling.{Acts, Fits, on_write-Simulates, on_read-Simulates}
use protobase.Decoder.Stream.{After}

-- A call of a method, with what the kernel does in it.
pub data Method : Type 0 where
  sends : List ℕ → WriteResult → Errno → Method
  drains : WriteResult → Method
  reads : ReadResult → Method
  shuts : Bool → Method
  forces : Method
  closes : Method
  establishes : Method
  destroys : Method

-- The calls that leave the buffers alone.
abbrev pub controls : (Connection → Connection) → Detailed → Option Detailed
controls f d = some (with_control (f d.control) d)

module _ (callback : Buffer → Heap → Option (Buffer × Heap)) where
  unfoldable pub call : Method → Detailed → Option Detailed
  unfolding send_in_loop on_write on_read shutdown force_close force_close_in_loop
      on_connection_establish on_connection_destroy
  call (sends m r e) d = send_in_loop m r e d
  call (drains w) d = on_write w d
  call (reads r) d = on_read callback r d
  call (shuts in_loop) d = controls (shutdown in_loop) d
  call forces d = controls force_close d
  call closes d = controls force_close_in_loop d
  call establishes d = controls on_connection_establish d
  call destroys d = controls on_connection_destroy d

  unfoldable pub run_calls : List Method → Detailed → Option Detailed
  unfolding call
  run_calls [] d = some d
  run_calls (k ∷ ks) d = call k d >>= λ d'. run_calls ks d'

module _ (consume : List ℕ → List ℕ) where
  unfoldable pub listed_call : Method → Connection → Connection
  unfolding shutdown force_close force_close_in_loop on_connection_establish on_connection_destroy
  listed_call (sends m r e) c = protobase.Connection.Send.send_in_loop m r e c
  listed_call (drains w) c = protobase.Connection.Handlers.on_write w c
  listed_call (reads r) c = protobase.Connection.Handlers.on_read r consume c
  listed_call (shuts in_loop) c = shutdown in_loop c
  listed_call forces c = force_close c
  listed_call closes c = force_close_in_loop c
  listed_call establishes c = on_connection_establish c
  listed_call destroys c = on_connection_destroy c

  unfoldable pub listed_calls : List Method → Connection → Connection
  unfolding listed_call
  listed_calls [] c = c
  listed_calls (k ∷ ks) c = listed_calls ks (listed_call k c)

-- The bytes of a call fit: no sum of `size_t` wraps.
unfoldable pub CallFits : Method → Detailed → Type 0
unfolding Fits
CallFits (sends m r e) d = d.output.capacity * 2 + length m < size_max
CallFits (reads r) d = Fits r d.input
CallFits (drains w) d = Unit {0}
CallFits (shuts in_loop) d = Unit {0}
CallFits forces d = Unit {0}
CallFits closes d = Unit {0}
CallFits establishes d = Unit {0}
CallFits destroys d = Unit {0}

unfoldable pub AllFit : (Buffer → Heap → Option (Buffer × Heap)) → List Method → Detailed → Type 0
unfolding call CallFits
AllFit callback [] d = Unit {0}
AllFit callback (k ∷ ks) d = CallFits k d × After (call callback k d) (λ d'. AllFit callback ks d')

shutdown-listed :
    (xs ys : List ℕ) (in_loop : Bool) (k : Connection)
    → listed xs ys (shutdown in_loop k) ≡ shutdown in_loop (listed xs ys k)
unfolding shutdown shutdown_in_loop
shutdown-listed xs ys in_loop k =
    if_listed (is_connected k.state) _ _
      (if_listed in_loop _ _ (if_listed (is_writing k.channel) _ _ refl refl) refl) refl

force_close-listed :
    (xs ys : List ℕ) (k : Connection) → listed xs ys (force_close k) ≡ force_close (listed xs ys k)
unfolding force_close
force_close-listed xs ys k =
    if_listed (is_connected k.state || is_disconnecting k.state) _ _ refl refl

force_close_in_loop-listed :
    (xs ys : List ℕ) (k : Connection)
    → listed xs ys (force_close_in_loop k) ≡ force_close_in_loop (listed xs ys k)
unfolding force_close_in_loop on_close
force_close_in_loop-listed xs ys k =
    if_listed (is_connected k.state || is_disconnecting k.state) _ _ refl refl

establish-listed :
    (xs ys : List ℕ) (k : Connection)
    → listed xs ys (on_connection_establish k) ≡ on_connection_establish (listed xs ys k)
unfolding on_connection_establish
establish-listed xs ys k = refl

destroy-listed :
    (xs ys : List ℕ) (k : Connection)
    → listed xs ys (on_connection_destroy k) ≡ on_connection_destroy (listed xs ys k)
unfolding on_connection_destroy
destroy-listed xs ys k = ap (on_channel remove) (
    if_listed {xs = xs} {ys = ys} (is_connected k.state)
      (record (on_channel disable_all k) { state = k_disconnected }) k refl refl)

module _ (callback : Buffer → Heap → Option (Buffer × Heap)) (consume : List ℕ → List ℕ)
    (acts : Acts callback consume) where
  module _ {d : Detailed} {c : Connection} (v : Stored d c) where
    controls-Simulates :
        (f : Connection → Connection)
        → (listed v.unread v.unsent (f d.control) ≡ f (listed v.unread v.unsent d.control))
        → Simulates (controls f d) (f (listed v.unread v.unsent d.control))
    controls-Simulates f e = stays _ _ (record {
      unread = v.unread;
      unsent = v.unsent;
      input = v.input;
      output = v.output;
      same = e;
    })

    call-listed :
        (k : Method)
        → CallFits k d
        → Simulates (call callback k d) (listed_call consume k (listed v.unread v.unsent d.control))
    unfolding call listed_call CallFits
    call-listed (sends m r e) fits = send_in_loop-Simulates d v.input v.output m r e fits
    call-listed (drains w) fits = on_write-Simulates d v.input v.output w
    call-listed (reads r) fits = on_read-Simulates d v.input v.output callback consume acts r fits
    call-listed (shuts in_loop) fits =
        controls-Simulates (shutdown in_loop) (shutdown-listed v.unread v.unsent in_loop d.control)
    call-listed forces fits =
        controls-Simulates force_close (force_close-listed v.unread v.unsent d.control)
    call-listed closes fits =
        controls-Simulates force_close_in_loop
          (force_close_in_loop-listed v.unread v.unsent d.control)
    call-listed establishes fits =
        controls-Simulates on_connection_establish (establish-listed v.unread v.unsent d.control)
    call-listed destroys fits =
        controls-Simulates on_connection_destroy (destroy-listed v.unread v.unsent d.control)

    call-Simulates :
        (k : Method) → CallFits k d → Simulates (call callback k d) (listed_call consume k c)
    call-Simulates k fits =
        subst (λ c. Simulates (call callback k d) (listed_call consume k c)) v.same
          (call-listed k fits)

  -- A connection with buffers, whose two buffers meet their invariant, stands for one with lists of
  -- bytes. Any calls of its methods, from its start to its end, whatever the kernel answers, do not
  -- fault, and leave what the same calls leave of the other one: the same bytes in the kernel, in
  -- the input and in the output, the same state, events, functors and callbacks, and buffers that
  -- meet their invariant. The message callback takes from the input buffer what `consume` takes
  -- from its bytes, and no sum of `size_t` wraps.
  pub run_calls-Simulates :
      (ks : List Method) (d : Detailed) (c : Connection)
      → Stored d c
      → AllFit callback ks d
      → Simulates (run_calls callback ks d) (listed_calls consume ks c)
  unfolding run_calls listed_calls AllFit
  run_calls-Simulates [] d c v fits = stays d c v
  run_calls-Simulates (k ∷ ks) d c v fits =
      let one = call-Simulates v k fits.0 in
      through (ap (λ m. m >>= λ d'. run_calls callback ks d') one.gives) (
        run_calls-Simulates ks one.after (listed_call consume k c) one.stored
          (subst (λ m. After m (λ d'. AllFit callback ks d')) one.gives fits.1))
