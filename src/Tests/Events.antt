-- ===== src/Tests/Events.antt =====
-- Calls of the speaker manager.
use meeting_baa_s.Base.{◌≡◌, refl, true, false, List, [], ◌∷◌}
use meeting_baa_s.Speaker.{
  SpeakerEvent, Hub, new_manager, new_hub, put_name, drop_name, push_locked, snapshot_names,
  set_channel, send, send_all, push, subscribe, unlist, cancel, cancel_locked, close_channel,
  Operation, pushed, subscribed, cancelled, operate, operate_all,
}
use meeting_baa_s.Speaker.Names.{pushes}
use meeting_baa_s.Speaker.Delivery.{IsLive, operate_all-IsLive}
use meeting_baa_s.Speaker.Races.{cancel_within_push}

abbrev ada : SpeakerEvent
ada = record { name = "Ada"; active = true }

abbrev quiet : SpeakerEvent
quiet = record { name = "Ada"; active = false }

abbrev grace : SpeakerEvent
grace = record { name = "Grace"; active = true }

hub_all : Unit {0}
unfolding new_manager new_hub put_name drop_name push_locked snapshot_names set_channel send
    send_all push subscribe unlist cancel cancel_locked close_channel operate operate_all pushes
hub_all = tt

-- Two subscribers of which one has room for one event, and is cancelled.
abbrev calls : List Operation
calls = subscribed 1 ∷ subscribed 0 ∷ pushed ada ∷ pushed grace ∷ cancelled 0 ∷ pushed quiet ∷ []

operate_all-IsLive_example : IsLive (operate_all calls new_hub)
unfolding hub_all
operate_all-IsLive_example = operate_all-IsLive calls (tt, (tt, (tt, (tt, (refl, (tt, tt))))))

abbrev subscribed_hub : Hub
subscribed_hub = operate_all (subscribed 4 ∷ []) new_hub

cancel_within_push_example :
    (send_all ada (push_locked ada subscribed_hub.manager).1 (
      cancel 0
        (record subscribed_hub { manager = (push_locked ada subscribed_hub.manager).0 }))).panicked
    ≡ true
unfolding hub_all
cancel_within_push_example = cancel_within_push ada 0 subscribed_hub refl
