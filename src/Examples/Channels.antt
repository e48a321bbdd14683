-- ===== src/Examples/Channels.antt =====
-- src/net/EpollPoller.cpp with one channel.
use protobase.Common.{refl, [], ◌∷◌}
use protobase.Common.Int.{pos}
use protobase.Channel.{Channel, create}
use protobase.Poller.{Poller, no_channels}
use protobase.Poller.Interest.{
  Synced, ask_reading, ask_writing, stop_reading, stop_all, leave, run, Follows, run-Follows,
}

abbrev wake : Channel
wake = create 1 (pos 5)

start : Synced wake no_channels
unfolding create
start = record { accepted = tt; watched = refl }

abbrev reading : Channel
reading = (run (ask_reading ∷ []) wake no_channels).0

abbrev polled : Poller
polled = (run (ask_reading ∷ []) wake no_channels).1

run-Follows_example :
    Follows wake no_channels
      (run (ask_reading ∷ ask_writing ∷ stop_reading ∷ stop_all ∷ leave ∷ []) wake no_channels).0
      (run (ask_reading ∷ ask_writing ∷ stop_reading ∷ stop_all ∷ leave ∷ []) wake no_channels).1
run-Follows_example =
    run-Follows (ask_reading ∷ ask_writing ∷ stop_reading ∷ stop_all ∷ leave ∷ []) wake no_channels
      start
