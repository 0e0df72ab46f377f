-- ===== src/Tests/Queues.antt =====
-- The theorems on the message queue and the transmitter at concrete inputs.
use rtc_client.Common.{ℕ, true, false, Option, some, List, [], ◌∷◌, ◌++◌, length, if◌then◌else◌}
use rtc_client.MsgQueue.{Message, Queue, put, to_destroy, start, stop, clear_msg_queue}
use rtc_client.MsgQueue
use rtc_client.MsgQueue.History.{History}
use rtc_client.Rtp.Transmitter.{Address, same_address, Transmitter}

abbrev message : Message
message = record { is_exit = false; msg_id = 3; first_param = 0; second_param = 0; payload = 0 }

-- A queue of one place that has been started and has taken a message.
abbrev queue : Queue
queue = (put message (start true (MsgQueue.new 1))).1

-- It is stopped, and its thread ends before the message is handled.
abbrev exit : Message
exit = record { is_exit = true; msg_id = 0; first_param = 0; second_param = 0; payload = 0 }

abbrev cleared : Queue
cleared = clear_msg_queue (stop exit queue)

abbrev accepted : List Message
accepted =
    if (put message (start true (MsgQueue.new 1))).0 then [] ++ to_destroy (message ∷ []) else []

abbrev near : Address
near = record { s_addr = 1; port = 5000 }

abbrev far : Address
far = record { s_addr = 2; port = 5000 }

abbrev transmitter : Transmitter
transmitter = record {
  initialize = true;
  bind_ip = 0;
  bind_port = 6000;
  is_open = true;
  destinations = near ∷ far ∷ near ∷ [];
}

abbrev short_to_far : Address → List ℕ → Option ℕ
short_to_far a bytes = if same_address a far then some 1 else some (length bytes)
