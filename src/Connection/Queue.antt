-- ===== src/Connection/Queue.antt =====
-- src/net/Connection.cpp: what a send and a write keep of the bytes of a connection.
use protobase.Common.{
  ℕ, ◌≡◌, ◌∙◌, ◌⊎◌, refl, sym, ap, Bool, true, false, ◌&&◌, not, List, [], ◌∷◌, ◌++◌, append_assoc,
  append-nil, ltb, length, take, drop, take_all, take-append-drop, if_then, if_else, arith,
  Bool-cases, inl, inr,
}
use protobase.Channel.{is_writing}
use protobase.Poller.{enable_writing, disable_writing, disable_all}
use protobase.Poller.Interest.{update_channel-events}
use protobase.Buffer.Fd.{WriteResult, took, write_fd}
use protobase.Connection.{
  Connection, Errno, is_fault, is_disconnected, is_disconnecting, on_channel, nothing_in, wrote,
}
use protobase.Connection.Send.{
  direct, Attempt, write_now, start_writing, keep_rest, behind, send_in_loop, shutdown_in_loop,
}
use protobase.Connection.Handlers.{skipped, written_out, written, told, on_write}

-- A connection that waits for no writable event has nothing to write.
abbrev pub Idle : Connection → Type 0
Idle c = is_writing c.channel ≡ false → c.output ≡ []

pub writing-Idle : (c : Connection) → is_writing c.channel ≡ true → Idle c
writing-Idle c w h = cc

pub enable_writing-is_writing :
    (c : Connection) → is_writing (on_channel enable_writing c).channel ≡ true
unfolding enable_writing
enable_writing-is_writing c =
    ap (λ e. e.write_event)
      (update_channel-events c.channel.status c.channel.events.read_event true c.channel c.poller)

pub disable_writing-is_writing :
    (c : Connection) → is_writing (on_channel disable_writing c).channel ≡ false
unfolding disable_writing
disable_writing-is_writing c =
    ap (λ e. e.write_event)
      (update_channel-events c.channel.status c.channel.events.read_event false c.channel c.poller)

pub disable_all-is_writing :
    (c : Connection) → is_writing (on_channel disable_all c).channel ≡ false
unfolding disable_all
disable_all-is_writing c =
    ap (λ e. e.write_event) (update_channel-events c.channel.status false false c.channel c.poller)

pub nothing_in-nil : (xs : List ℕ) → nothing_in xs ≡ true → xs ≡ []
nothing_in-nil [] h = refl
nothing_in-nil (x ∷ xs) h = absurd (ground arith)

-- The facts that a send or a write keeps: the bytes in order, and what else the queue rests on.
pub record Carries (extra : List ℕ) (c c' : Connection) : Type 0 where
  pub bytes : c'.wire ++ c'.output ≡ (c.wire ++ c.output) ++ extra
  pub idle : Idle c'
  pub same_state : is_disconnected c'.state ≡ is_disconnected c.state

start_writing-is_writing : (c : Connection) → is_writing (start_writing c).channel ≡ true
unfolding start_writing
start_writing-is_writing c = elim (Bool-cases (is_writing c.channel)) [
  | inl h ↦
      ap (λ d. is_writing d.channel)
        (if_then {b = is_writing c.channel} c (on_channel enable_writing c) h)
      ∙ h
  | inr h ↦
      ap (λ d. is_writing d.channel)
        (if_else {b = is_writing c.channel} c (on_channel enable_writing c) h)
      ∙ enable_writing-is_writing c
]

start_writing-same :
    (c : Connection) → (start_writing c).wire ++ (start_writing c).output ≡ c.wire ++ c.output
unfolding start_writing
start_writing-same c = ground arith

start_writing-state : (c : Connection) → (start_writing c).state ≡ c.state
unfolding start_writing
start_writing-state c = ground arith

keep_rest-Carries : (rest : List ℕ) (c : Connection) → Idle c → Carries rest c (keep_rest rest c)
unfolding keep_rest
keep_rest-Carries [] c idle = record {
  bytes = sym (append-nil (c.wire ++ c.output));
  idle = idle;
  same_state = refl;
}
keep_rest-Carries (b ∷ rest) c idle = record {
  bytes = start_writing-same (behind (b ∷ rest) c) ∙ sym (append_assoc c.wire c.output (b ∷ rest));
  idle =
      writing-Idle (start_writing (behind (b ∷ rest) c))
        (start_writing-is_writing (behind (b ∷ rest) c));
  same_state = ap is_disconnected (start_writing-state (behind (b ∷ rest) c));
}

-- What was tried at once: the bytes taken and the rest, behind the output.
record Tried (m : List ℕ) (c : Connection) (a : Attempt) : Type 0 where
  bytes : (a.connection.wire ++ a.connection.output) ++ a.rest ≡ (c.wire ++ c.output) ++ m
  idle : Idle a.connection
  same_state : a.connection.state ≡ c.state

write_now-Tried :
    (m : List ℕ) (r : WriteResult) (e : Errno) (c : Connection)
    → Idle c
    → Tried m c (write_now m r e c)
unfolding write_now
write_now-Tried m r e c idle = elim (Bool-cases (direct c)) [
  | inl h ↦
      rw (h, write_now)
        record {
          bytes =
              let none_out : c.output ≡ [] =
                idle (not_writing (is_writing c.channel) (nothing_in c.input) h) in
              rw (none_out, append-nil (c.wire ++ take (wrote r) m), append-nil c.wire)
                (append_assoc c.wire (take (wrote r) m) (drop (wrote r) m)
                  ∙ ap (λ l. c.wire ++ l) (take-append-drop (wrote r) m));
          idle = idle;
          same_state = refl;
        }
  | inr h ↦ rw (h, write_now) record { bytes = refl; idle = idle; same_state = refl }
]
  where
    not_writing : (b d : Bool) → (not b && d) ≡ true → b ≡ false
    not_writing true d h = cc
    not_writing false d h = refl

-- The bytes that a send gives up, with an error that ends the connection.
abbrev pub Unbroken : WriteResult → Errno → Type 0
Unbroken r e = (not (ltb 0 (wrote r)) && is_fault e) ≡ false

pub Carries-trans :
    {xs ys : List ℕ} {c c' c'' : Connection}
    → Carries xs c c'
    → Carries ys c' c''
    → Carries (xs ++ ys) c c''
Carries-trans {xs} {ys} {c} a b = record {
  bytes = b.bytes ∙ ap (λ l. l ++ ys) a.bytes ∙ append_assoc (c.wire ++ c.output) xs ys;
  idle = b.idle;
  same_state = b.same_state ∙ a.same_state;
}

write_now-fault :
    (m : List ℕ) (r : WriteResult) (e : Errno) (c : Connection)
    → Unbroken r e
    → (write_now m r e c).fault ≡ false
unfolding write_now
write_now-fault m r e c h = elim (Bool-cases (direct c)) [
  | inl d ↦ rw (d, write_now) h
  | inr d ↦ rw (d, write_now) refl
]

pub send_in_loop-Carries :
    (m : List ℕ) (r : WriteResult) (e : Errno) (c : Connection)
    → Idle c
    → is_disconnected c.state ≡ false
    → Unbroken r e
    → Carries m c (send_in_loop m r e c)
unfolding send_in_loop
send_in_loop-Carries m r e c idle live whole =
    let t = write_now-Tried m r e c idle in
    let k = keep_rest-Carries (write_now m r e c).rest (write_now m r e c).connection t.idle in
    rw (live, write_now-fault m r e c whole, send_in_loop)
      record {
        bytes = k.bytes ∙ t.bytes;
        idle = k.idle;
        same_state = k.same_state ∙ ap is_disconnected t.same_state;
      }

skipped-take : (n : ℕ) (xs : List ℕ) → take n xs ++ skipped n xs ≡ xs
skipped-take n xs = elim (Bool-cases (ltb n (length xs))) [
  | inl h ↦ rw h (take-append-drop n xs)
  | inr h ↦ rw h (append-nil (take n xs) ∙ take_all n xs (ground (arith, h)))
]

-- After the last byte nothing is shut down: `shutdownInLoop` finds the writing disabled.
pub written_out-told : (c : Connection) → written_out c ≡ told c
unfolding written_out shutdown_in_loop
written_out-told c = elim (Bool-cases (is_disconnecting c.state)) [
  | inl h ↦
      if_then {b = is_disconnecting c.state} (shutdown_in_loop (told c)) (told c) h
      ∙ if_else {b = is_writing (told c).channel} (record (told c) { shut = true }) (told c)
          (disable_writing-is_writing c)
  | inr h ↦ if_else {b = is_disconnecting c.state} (shutdown_in_loop (told c)) (told c) h
]

written-Carries :
    (n : ℕ) (c : Connection) → is_writing c.channel ≡ true → Carries [] c (written (took n) c)
unfolding written
written-Carries n c h = record {
  bytes =
      append_assoc c.wire (take n c.output) (skipped n c.output)
      ∙ ap (λ l. c.wire ++ l) (skipped-take n c.output)
      ∙ sym (append-nil (c.wire ++ c.output));
  idle = writing-Idle (written (took n) c) h;
  same_state = refl;
}

told-Carries : (c : Connection) → c.output ≡ [] → Carries [] c (told c)
told-Carries c none_out = record {
  bytes = sym (append-nil (c.wire ++ c.output));
  idle = λ h. none_out;
  same_state = refl;
}

pub Carries-refl : (c : Connection) → Idle c → Carries [] c c
Carries-refl c idle = record {
  bytes = sym (append-nil (c.wire ++ c.output));
  idle = idle;
  same_state = refl;
}

-- The three ways through `onWrite`.
pub on_write-cases :
    (r : WriteResult) (c : Connection)
    → (on_write r c ≡ c)
      ⊎ (is_writing c.channel ≡ true)
        × (((written r c).output ≡ []) × (on_write r c ≡ told (written r c))
            ⊎ (on_write r c ≡ written r c))
unfolding on_write
on_write-cases r c = elim (Bool-cases (is_writing c.channel && ltb 0 (write_fd r))) [
  | inr h ↦ inl (if_else _ _ h)
  | inl h ↦ inr (
    both (is_writing c.channel) (ltb 0 (write_fd r)) h,
    elim (Bool-cases (nothing_in (written r c).output)) [
      | inl k ↦ inl (
        nothing_in-nil (written r c).output k,
        if_then {b = is_writing c.channel && ltb 0 (write_fd r)} _ _ h
            ∙ if_then {b = nothing_in (written r c).output} (written_out (written r c))
                (written r c) k
            ∙ written_out-told (written r c),
      )
      | inr k ↦ inr (
          if_then {b = is_writing c.channel && ltb 0 (write_fd r)} _ _ h
          ∙ if_else {b = nothing_in (written r c).output} (written_out (written r c)) (written r c)
              k)
    ],
  )
]
  where
    both : (a b : Bool) → (a && b) ≡ true → a ≡ true
    both true b h = refl
    both false b h = cc

pub on_write-Carries : (n : ℕ) (c : Connection) → Idle c → Carries [] c (on_write (took n) c)
on_write-Carries n c idle = elim (on_write-cases (took n) c) [
  | inl e ↦ rw e (Carries-refl c idle)
  | inr (w, inl (o, e)) ↦
      rw e (Carries-trans (written-Carries n c w) (told-Carries (written (took n) c) o))
  | inr (w, inr e) ↦ rw e (written-Carries n c w)
]
