-- ===== src/Poller/Interest.antt =====
-- The set of descriptors that the calls of `epoll_ctl` leave in the kernel, as epoll_ctl(2) describes
-- it, and its agreement with the status of a channel.
use protobase.Common.{
  Bool, true, false, Option, none, some, List, [], ◌∷◌, if◌then◌else◌, ◌≡◌, ◌∙◌, refl, ap, ℕ,
}
use protobase.Common.Int.{ℤ, same, same_refl}
use protobase.Channel.{Channel, Status, k_new, k_added, k_deleted, Events, none_event}
use protobase.Poller.{
  Operation, ctl_add, ctl_mod, ctl_del, Call, Poller, update, update_channel, remove_channel,
  enable_reading, disable_reading, enable_writing, disable_writing, disable_all, remove, put,
}

abbrev pub entry_after : Operation → Events → Option Events
entry_after ctl_add e = some e
entry_after ctl_mod e = some e
entry_after ctl_del e = none

-- The events that the kernel watches a descriptor for.
abbrev pub interest : ℤ → List Call → Option Events
interest fd [] = none
interest fd (c ∷ cs) = if same fd c.fd then entry_after c.operation c.events else interest fd cs

-- `epoll_ctl` adds a descriptor that is not in the set, and changes or removes one that is.
abbrev pub Fits : Operation → Option Events → Type 0
Fits ctl_add none = Unit {0}
Fits ctl_add (some e) = ⊥
Fits ctl_mod none = ⊥
Fits ctl_mod (some e) = Unit {0}
Fits ctl_del none = ⊥
Fits ctl_del (some e) = Unit {0}

-- Every call was one that the kernel accepts.
abbrev pub Accepted : List Call → Type 0
Accepted [] = Unit {0}
Accepted (c ∷ cs) = Fits c.operation (interest c.fd cs) × Accepted cs

abbrev pub expected : Status → Events → Option Events
expected k_new e = none
expected k_added e = some e
expected k_deleted e = none

-- The kernel watches the channel's descriptor for its events if the channel is `kAdded`, and not at
-- all otherwise.
pub record Synced (c : Channel) (p : Poller) : Type 0 where
  pub accepted : Accepted p.calls
  pub watched : interest c.fd p.calls ≡ expected c.status c.events

-- The calls of one channel's owner.
pub data Request : Type 0 where
  ask_reading : Request
  stop_reading : Request
  ask_writing : Request
  stop_writing : Request
  stop_all : Request
  leave : Request

unfoldable pub answer : Request → Channel → Poller → Channel × Poller
unfolding enable_reading disable_reading enable_writing disable_writing disable_all remove
answer ask_reading c p = enable_reading c p
answer stop_reading c p = disable_reading c p
answer ask_writing c p = enable_writing c p
answer stop_writing c p = disable_writing c p
answer stop_all c p = disable_all c p
answer leave c p = remove c p

unfoldable pub run : List Request → Channel → Poller → Channel × Poller
unfolding answer
run [] c p = (c, p)
run (r ∷ rs) c p = run rs (answer r c p).0 (answer r c p).1

-- `(c', p')` follows `(c, p)`: the channel is in step with the kernel, and no other descriptor is
-- touched.
pub record Follows (c : Channel) (p : Poller) (c' : Channel) (p' : Poller) : Type 0 where
  pub synced : Synced c' p'
  pub same_fd : c'.fd ≡ c.fd
  pub others : (fd : ℤ) → same fd c.fd ≡ false → interest fd p'.calls ≡ interest fd p.calls
  pub others_kept : (fd : ℤ) → same fd c.fd ≡ false → p'.channels fd ≡ p.channels fd

fits : (o : Operation) {x y : Option Events} → x ≡ y → Fits o y → Fits o x
fits o e h = rw e h

-- One call of `epoll_ctl` for the channel.
module _ (c : Channel) (p : Poller) where
  update-others :
      (o : Operation) (fd : ℤ)
      → same fd c.fd ≡ false
      → interest fd (update o c p).calls ≡ interest fd p.calls
  unfolding update
  update-others o fd h = rw h refl

  update-watched : (o : Operation) → interest c.fd (update o c p).calls ≡ entry_after o c.events
  unfolding update
  update-watched o = rw (same_refl c.fd) refl

-- A call of `epoll_ctl` that takes the channel from one status to another.
module _ (c : Channel) (p q : Poller) (st : Status) (s : Synced (record c { status = st }) p) where
  call-Follows :
      (o : Operation) (e : Events) (st' : Status)
      → Fits o (expected st c.events)
      → entry_after o e ≡ expected st' e
      → q.calls ≡ p.calls
      → ((fd : ℤ) → same fd c.fd ≡ false → q.channels fd ≡ p.channels fd)
      → Follows
          (record c { status = st })
          p
          (record c { status = st'; events = e })
          (update o (record c { events = e }) q)
  unfolding update
  call-Follows o e st' ok after calls kept = record {
    synced = record {
      accepted = rw calls (fits o s.watched ok, s.accepted);
      watched = update-watched (record c { events = e }) q o ∙ after;
    };
    same_fd = refl;
    others = λ fd h. update-others (record c { events = e }) q o fd h ∙ ap (interest fd) calls;
    others_kept = kept;
  }

put_other :
    (k fd : ℤ) (entry : Option ℕ) (channels : ℤ → Option ℕ)
    → same k fd ≡ false
    → put fd entry channels k ≡ channels k
put_other k fd entry channels h = rw h refl

update_channel-Follows :
    (st : Status) (r w : Bool) (c : Channel) (p : Poller)
    → Synced (record c { status = st }) p
    → Follows
        (record c { status = st })
        p
        (update_channel
          (record c { status = st; events = record { read_event = r; write_event = w } })
          p).0
        (update_channel
          (record c { status = st; events = record { read_event = r; write_event = w } })
          p).1
unfolding update_channel
update_channel-Follows k_new r w c p s =
    call-Follows c p (record p { channels = put c.fd (some c.id) p.channels }) k_new s ctl_add _
      k_added tt refl refl (λ fd h. put_other fd c.fd (some c.id) p.channels h)
update_channel-Follows k_deleted r w c p s =
    call-Follows c p p k_deleted s ctl_add _ k_added tt refl refl (λ fd h. refl)
update_channel-Follows k_added false false c p s =
    call-Follows c p p k_added s ctl_del _ k_deleted tt refl refl (λ fd h. refl)
update_channel-Follows k_added true w c p s =
    call-Follows c p p k_added s ctl_mod _ k_added tt refl refl (λ fd h. refl)
update_channel-Follows k_added false true c p s =
    call-Follows c p p k_added s ctl_mod _ k_added tt refl refl (λ fd h. refl)

remove_channel-Follows :
    (st : Status) (c : Channel) (p : Poller)
    → Synced (record c { status = st }) p
    → Follows
        (record c { status = st })
        p
        (remove_channel (record c { status = st }) p).0
        (remove_channel (record c { status = st }) p).1
unfolding remove_channel
remove_channel-Follows k_added c p s =
    call-Follows c p (record p { channels = put c.fd none p.channels }) k_added s ctl_del c.events
      k_new tt refl refl (λ fd h. put_other fd c.fd none p.channels h)
remove_channel-Follows k_new c p s = record {
  synced = record { accepted = s.accepted; watched = s.watched };
  same_fd = refl;
  others = λ fd h. refl;
  others_kept = λ fd h. put_other fd c.fd none p.channels h;
}
remove_channel-Follows k_deleted c p s = record {
  synced = record { accepted = s.accepted; watched = s.watched };
  same_fd = refl;
  others = λ fd h. refl;
  others_kept = λ fd h. put_other fd c.fd none p.channels h;
}

Follows-trans :
    {c c' c'' : Channel} {p p' p'' : Poller}
    → Follows c p c' p'
    → Follows c' p' c'' p''
    → Follows c p c'' p''
Follows-trans a b = record {
  synced = b.synced;
  same_fd = b.same_fd ∙ a.same_fd;
  others = λ fd h. b.others fd (rw a.same_fd h) ∙ a.others fd h;
  others_kept = λ fd h. b.others_kept fd (rw a.same_fd h) ∙ a.others_kept fd h;
}

answer-Follows :
    (r : Request) (c : Channel) (p : Poller)
    → Synced c p
    → Follows c p (answer r c p).0 (answer r c p).1
unfolding answer enable_reading disable_reading enable_writing disable_writing disable_all remove
answer-Follows ask_reading c p s = update_channel-Follows c.status true c.events.write_event c p s
answer-Follows stop_reading c p s = update_channel-Follows c.status false c.events.write_event c p s
answer-Follows ask_writing c p s = update_channel-Follows c.status c.events.read_event true c p s
answer-Follows stop_writing c p s = update_channel-Follows c.status c.events.read_event false c p s
answer-Follows stop_all c p s = update_channel-Follows c.status false false c p s
answer-Follows leave c p s = remove_channel-Follows c.status c p s

-- Whatever its owner asks, in any order, a channel whose status agrees with the kernel's set goes on
-- to agree with it: the kernel accepts every call of `epoll_ctl`, watches the descriptor for exactly
-- the channel's events while its status is `kAdded` and not at all otherwise, and neither the set nor
-- the poller's table changes at another descriptor.
pub run-Follows :
    (rs : List Request) (c : Channel) (p : Poller)
    → Synced c p
    → Follows c p (run rs c p).0 (run rs c p).1
unfolding run
run-Follows [] c p s = record {
  synced = s;
  same_fd = refl;
  others = λ fd h. refl;
  others_kept = λ fd h. refl;
}
run-Follows (r ∷ rs) c p s =
    let one = answer-Follows r c p s in
    Follows-trans one (run-Follows rs (answer r c p).0 (answer r c p).1 one.synced)

-- A channel in step with the kernel that is `kAdded` leaves the kernel's set when its owner disables
-- all its events, and is back in it, for no events, when the owner does so a second time: then only
-- the errors and hang-ups that epoll always reports are watched.
disable_all_twice :
    (c : Channel) (p : Poller)
    → Synced c p
    → c.status ≡ k_added
    → (interest c.fd (run (stop_all ∷ []) c p).1.calls ≡ none)
      × (interest c.fd (run (stop_all ∷ stop_all ∷ []) c p).1.calls ≡ some none_event)
unfolding run answer disable_all update_channel update
disable_all_twice c p s added = rw (added, same_refl c.fd) (refl, refl)

-- An update changes no events.
pub update_channel-events :
    (st : Status) (r w : Bool) (c : Channel) (p : Poller)
    → (update_channel
        (record c { status = st; events = record { read_event = r; write_event = w } })
        p).0.events
      ≡ record { read_event = r; write_event = w }
unfolding update_channel
update_channel-events k_new r w c p = refl
update_channel-events k_deleted r w c p = refl
update_channel-events k_added false false c p = refl
update_channel-events k_added true w c p = refl
update_channel-events k_added false true c p = refl

pub remove_channel-events :
    (st : Status) (c : Channel) (p : Poller)
    → (remove_channel (record c { status = st }) p).0.events ≡ c.events
unfolding remove_channel
remove_channel-events k_new c p = refl
remove_channel-events k_deleted c p = refl
remove_channel-events k_added c p = refl
