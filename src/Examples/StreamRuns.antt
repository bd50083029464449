-- ===== src/Examples/StreamRuns.antt =====
-- Runs of the log stream of the agent, and of the logger for Virtual Kubelet.
use supernetes.Prelude.{ℕ, [], ◌∷◌, true, false, ◌≡◌, refl, none, some}
use supernetes.Agent.Server.Streaming.{
  eof, other, Streaming, offers, sends, tail_ends, receive_ends, stops, stopped, send_failed, logs,
  act, offer, send, end_tail, end_receive, stop_with, put, expected, here, next,
}
use supernetes.Agent.Server.Streaming.Delivery.{IsAbandoned, Reach-delivered, Reach-IsAbandoned}
use supernetes.Logging.{Config}

-- one line is sent, tailF ends, and Logs returns
abbrev delivered : Streaming ℕ
delivered = record {
  produced = 7 ∷ [];
  offered = none;
  sent = 7 ∷ [];
  stop = none;
  tail_done = true;
  receive_done = false;
  outcome = stopped none;
}

Reach-delivered_example : (delivered.tail_done ≡ true) × (delivered.sent ≡ delivered.produced)
unfolding logs act offer send end_tail stop_with put expected
Reach-delivered_example =
    (Reach-delivered delivered
        (next stops (next (tail_ends none) (next sends (next (offers 7) here refl) refl) refl) refl)
        refl).1
      refl refl

-- a send fails, and tailF has read one line more
abbrev abandoned : Streaming ℕ
abandoned = record {
  produced = 7 ∷ 8 ∷ [];
  offered = some 8;
  sent = [];
  stop = none;
  tail_done = false;
  receive_done = false;
  outcome = send_failed (other "broken");
}

Reach-IsAbandoned_example :
    IsAbandoned 8 (record abandoned { receive_done = true; stop = some (some eof) })
unfolding act end_receive put
Reach-IsAbandoned_example =
    Reach-IsAbandoned 8 abandoned (record abandoned { receive_done = true; stop = some (some eof) })
      (next (receive_ends eof) here refl) (refl, refl, refl)

abbrev vk_config : Config
vk_config = record { clamp_to_debug = true; suppress_ctx_canceled = true }
