-- ===== src/Poller/Descriptors.antt =====
-- src/net/EpollPoller.cpp: the calls on a channel leave its descriptor.
use protobase.Common.{◌≡◌, refl, if_both}
use protobase.Channel.{Channel, Status, k_new, k_added, k_deleted, is_none_event}
use protobase.Poller.{Poller, update_channel, remove_channel}

pub update_channel-fd : (c : Channel) (p : Poller) → (update_channel c p).0.fd ≡ c.fd
unfolding update_channel
update_channel-fd c p = by_status c.status
  where
    by_status : (s : Status) → (update_channel (record c { status = s }) p).0.fd ≡ c.fd
    by_status k_new = refl
    by_status k_added =
        if_both (λ (r : Channel × Poller). r.0.fd ≡ c.fd) {b = is_none_event c} _ _ (λ e. refl)
          (λ e. refl)
    by_status k_deleted = refl

pub remove_channel-fd : (c : Channel) (p : Poller) → (remove_channel c p).0.fd ≡ c.fd
unfolding remove_channel
remove_channel-fd c p = by_status c.status
  where
    by_status : (s : Status) → (remove_channel (record c { status = s }) p).0.fd ≡ c.fd
    by_status k_new = refl
    by_status k_added = refl
    by_status k_deleted = refl

-- And its callbacks.
pub update_channel-callbacks :
    (c : Channel) (p : Poller)
    → ((update_channel c p).0.has_close ≡ c.has_close)
      × ((update_channel c p).0.has_error ≡ c.has_error)
unfolding update_channel
update_channel-callbacks c p = by_status c.status
  where
    by_status :
        (s : Status)
        → ((update_channel (record c { status = s }) p).0.has_close ≡ c.has_close)
          × ((update_channel (record c { status = s }) p).0.has_error ≡ c.has_error)
    by_status k_new = (refl, refl)
    by_status k_added =
        if_both
          (λ (r : Channel × Poller). (r.0.has_close ≡ c.has_close) × (r.0.has_error ≡ c.has_error))
          {b = is_none_event c} _ _ (λ e. (refl, refl)) (λ e. (refl, refl))
    by_status k_deleted = (refl, refl)

pub remove_channel-callbacks :
    (c : Channel) (p : Poller)
    → ((remove_channel c p).0.has_close ≡ c.has_close)
      × ((remove_channel c p).0.has_error ≡ c.has_error)
unfolding remove_channel
remove_channel-callbacks c p = by_status c.status
  where
    by_status :
        (s : Status)
        → ((remove_channel (record c { status = s }) p).0.has_close ≡ c.has_close)
          × ((remove_channel (record c { status = s }) p).0.has_error ≡ c.has_error)
    by_status k_new = (refl, refl)
    by_status k_added = (refl, refl)
    by_status k_deleted = (refl, refl)
