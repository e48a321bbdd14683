-- ===== src/EventLoop/Timers/Lifetimes.antt =====
-- src/net/EventLoop.cpp: the channels of timers and their entries in `m_timerChannels`.
use protobase.Common.{
  ℕ, ◌≡◌, ◌≢◌, ◌∙◌, refl, sym, ap, subst, inl, inr, Bool, true, Option, none, some, List, ◌==◌,
  ==_iff, ◌>>=◌, if_then, if_else, Bool-cases,
}
use protobase.Common.Int.{ℤ, same, same_refl, same→eq}
use protobase.Channel.{Channel, none_event}
use protobase.Poller.{Poller, enable_reading, disable_all, remove}
use protobase.Poller.Descriptors.{update_channel-fd, remove_channel-fd}
use protobase.EventLoop.Timers.{
  TimerChannel, Timers, Spec, set_object, set_entry, add_timer, delete, off, taken_down, take_down,
  cancel, cancel_entry,
}

-- The channels that are there and the entries that point to one belong to each other.
pub record Sound (t : Timers) : Type 0 where
  pub to_object :
      (fd : ℤ) (id : ℕ)
      → t.table fd ≡ some (some id)
      → (o : TimerChannel) × (t.objects id ≡ some o) × (o.channel.fd ≡ fd)
  pub to_entry :
      (id : ℕ) (o : TimerChannel) → t.objects id ≡ some o → t.table o.channel.fd ≡ some (some id)

id_refl : (j k : ℕ) → j ≡ k → (j == k) ≡ true
id_refl j k e = (==_iff j k).1 e

fd_refl : (j k : ℤ) → j ≡ k → same j k ≡ true
fd_refl j k e = subst (λ i. same j i ≡ true) e (same_refl j)

-- A store and a table that change at one key each: an entry that points to a channel of its descriptor.
put_Sound :
    (fd : ℤ) (id : ℕ) (o : TimerChannel) (t : Timers)
    → o.channel.fd ≡ fd
    → t.objects id ≡ none
    → ((k : ℕ) (p : TimerChannel) → t.objects k ≡ some p → p.channel.fd ≢ fd)
    → Sound t
    → Sound (set_entry fd (some (some id)) (set_object id (some o) t))
put_Sound fd id o t same_fd fresh unused v = record {
  to_object = λ k j h. elim (Bool-cases (same k fd)) [
    | inl e ↦
        let j_is : id ≡ j = cc (sym (if_then {b = same k fd} (some (some id)) (t.table k) e) ∙ h) in
        (
          o,
          if_then {b = j == id} (some o) (t.objects j) (id_refl j id (sym j_is)),
          same_fd ∙ sym (same→eq k fd e),
        )
    | inr e ↦
        let (p, there, its_fd) =
          v.to_object k j (sym (if_else {b = same k fd} (some (some id)) (t.table k) e) ∙ h) in
        elim (Bool-cases (j == id)) [
          | inl e' ↦ absurd (cc (there, fresh, (==_iff j id).0 e'))
          | inr e' ↦ (p, if_else {b = j == id} (some o) (t.objects j) e' ∙ there, its_fd)
        ]
  ];
  to_entry = λ j p h. elim (Bool-cases (j == id)) [
    | inl e ↦
        let is_o : o ≡ p = cc (sym (if_then {b = j == id} (some o) (t.objects j) e) ∙ h) in
        let its_fd = ap (λ (q : TimerChannel). q.channel.fd) (sym is_o) ∙ same_fd in
        if_then {b = same p.channel.fd fd} (some (some id)) (t.table p.channel.fd)
          (fd_refl p.channel.fd fd its_fd)
        ∙ ap (λ i. some (some i)) (sym ((==_iff j id).0 e))
    | inr e ↦
        let there = sym (if_else {b = j == id} (some o) (t.objects j) e) ∙ h in
        elim (Bool-cases (same p.channel.fd fd)) [
          | inl e' ↦ absurd (unused j p there (same→eq p.channel.fd fd e'))
          | inr e' ↦
              if_else {b = same p.channel.fd fd} (some (some id)) (t.table p.channel.fd) e'
              ∙ v.to_entry j p there
        ]
  ];
}

-- The same for a channel that goes and its entry.
take_Sound :
    (id : ℕ) (o : TimerChannel) (t : Timers)
    → t.objects id ≡ some o
    → Sound t
    → Sound (set_entry o.channel.fd none (set_object id none t))
take_Sound id o t here v = record {
  to_object = λ k j h. elim (Bool-cases (same k o.channel.fd)) [
    | inl e ↦ absurd (cc (sym (if_then {b = same k o.channel.fd} none (t.table k) e) ∙ h))
    | inr e ↦
        let (p, there, its_fd) =
          v.to_object k j (sym (if_else {b = same k o.channel.fd} none (t.table k) e) ∙ h) in
        elim (Bool-cases (j == id)) [
          | inl e' ↦
              let is_o : o ≡ p = cc (there, here, (==_iff j id).0 e') in
              let k_is = sym its_fd ∙ ap (λ (q : TimerChannel). q.channel.fd) (sym is_o) in
              absurd (cc (e, fd_refl k o.channel.fd k_is))
          | inr e' ↦ (p, if_else {b = j == id} none (t.objects j) e' ∙ there, its_fd)
        ]
  ];
  to_entry = λ j p h. elim (Bool-cases (j == id)) [
    | inl e ↦ absurd (cc (sym (if_then {b = j == id} none (t.objects j) e) ∙ h))
    | inr e ↦
        let there = sym (if_else {b = j == id} none (t.objects j) e) ∙ h in
        elim (Bool-cases (same p.channel.fd o.channel.fd)) [
          | inl e' ↦
              let same_entry =
                sym (v.to_entry id o here)
                ∙ ap t.table (sym (same→eq p.channel.fd o.channel.fd e'))
                ∙ v.to_entry j p there in
              let same_id : id ≡ j = cc same_entry in absurd (cc (e, id_refl j id (sym same_id)))
          | inr e' ↦
              if_else {b = same p.channel.fd o.channel.fd} none (t.table p.channel.fd) e'
              ∙ v.to_entry j p there
        ]
  ];
}

-- An entry that points to no channel gets another that points to none.
null_Sound :
    (fd : ℤ) (t : Timers) → t.table fd ≡ none → Sound t → Sound (set_entry fd (some none) t)
null_Sound fd t no_entry v = record {
  to_object = λ k j h. elim (Bool-cases (same k fd)) [
    | inl e ↦ absurd (cc (sym (if_then {b = same k fd} (some none) (t.table k) e) ∙ h))
    | inr e ↦ v.to_object k j (sym (if_else {b = same k fd} (some none) (t.table k) e) ∙ h)
  ];
  to_entry = λ j p h. elim (Bool-cases (same p.channel.fd fd)) [
    | inl e ↦
        absurd (cc (sym no_entry ∙ ap t.table (sym (same→eq p.channel.fd fd e)) ∙ v.to_entry j p h))
    | inr e ↦
        if_else {b = same p.channel.fd fd} (some none) (t.table p.channel.fd) e ∙ v.to_entry j p h
  ];
}

pub off-fd : (c : Channel) (p : Poller) → (off c p).0.fd ≡ c.fd
unfolding disable_all remove
off-fd c p = remove_channel-fd _ _ ∙ update_channel-fd (record c { events = none_event }) p

moved_Sound :
    (p : Poller) (fds : List ℤ) (t : Timers)
    → Sound t
    → Sound (record t { poller = p; closed = fds })
moved_Sound p fds t v = record { to_object = v.to_object; to_entry = v.to_entry }

pub add_timer-Sound :
    (id : ℕ) (repeat : Bool) (task : ℕ) (fd : ℤ) (spec : Spec) (t : Timers)
    → t.objects id ≡ none
    → ((k : ℕ) (p : TimerChannel) → t.objects k ≡ some p → p.channel.fd ≢ fd)
    → Sound t
    → Sound (add_timer id repeat task (fd, spec) t)
unfolding add_timer enable_reading protobase.Channel.create
add_timer-Sound id repeat task fd spec t fresh unused v =
    let c = record (protobase.Channel.create id fd) { has_read = true } in
    let r = enable_reading c t.poller in
    put_Sound fd id (record { channel = r.0; spec = spec; task = task; repeat = repeat })
      (record t { poller = r.1 })
      (update_channel-fd (record c { events = record c.events { read_event = true } }) t.poller)
      fresh unused (moved_Sound r.1 t.closed t v)

pub take_down-Sound :
    (id : ℕ) (key : Channel → ℤ) (t : Timers) (o : TimerChannel)
    → t.objects id ≡ some o
    → key (off o.channel t.poller).0 ≡ o.channel.fd
    → Sound t
    → (take_down id key t ≡ some (taken_down id key t o))
      × Sound (taken_down id key t o)
      × ((taken_down id key t o).objects id ≡ none)
unfolding take_down delete
take_down-Sound id key t o here same_key v = (
  ap (λ x. x >>= λ o. some (taken_down id key t o)) here,
  moved_Sound _ _ _ (
      subst (λ fd. Sound (set_entry fd none (set_object id none t))) (sym same_key)
        (take_Sound id o t here v)),
  if_then {b = id == id} none (t.objects id) (id_refl id id refl),
)

pub take_down_gone :
    (id : ℕ) (key : Channel → ℤ) (t : Timers) → t.objects id ≡ none → take_down id key t ≡ none
unfolding take_down
take_down_gone id key t gone = ap (λ x. x >>= λ o. some (taken_down id key t o)) gone

-- `cancel` never touches a channel that is gone, whatever descriptor it is given.
pub cancel-Sound :
    (fd : ℤ) (t : Timers) → Sound t → (t' : Timers) × (cancel fd t ≡ some t') × Sound t'
unfolding cancel cancel_entry
cancel-Sound fd t v = by_entry (t.table fd) refl
  where
    by_entry :
        (e : Option (Option ℕ))
        → t.table fd ≡ e
        → (t' : Timers) × (cancel_entry e fd t ≡ some t') × Sound t'
    by_entry none h = (set_entry fd (some none) t, refl, null_Sound fd t h v)
    by_entry (some none) h = (t, refl, v)
    by_entry (some (some id)) h =
        let (o, here, its_fd) = v.to_object fd id h in
        let w = take_down-Sound id (λ c. fd) t o here (sym its_fd) v in
        (taken_down id (λ c. fd) t o, w.0, w.1)
