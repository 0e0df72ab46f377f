-- ===== src/Room/Meeting/Leaving.antt =====
-- The messages that end a conference, or another user's part in it.
use rtc_client.Common.{false, []}
use rtc_client.Common.Text.{remove}
use rtc_client.Json.{JsonObject}
use rtc_client.PortManager.{PortManager}
use rtc_client.Room.Meeting.{Room, stop_receive, remove_sender}
use rtc_client.Room.Meeting.Handlers.{
  Handled, conference_left, user_gone_out, conference_stopped, conference_closed, notice_if,
  text_of,
}

-- What the three handlers below do to the room: the users go, and what is known of this user.
unfoldable pub leave : Room → Room
unfolding stop_receive remove_sender
leave r =
    let stopped = remove_sender (stop_receive r) in
    record stopped {
      other_users_map = [];
      my_room_id = [];
      my_ip_addr = [];
      my_user_id = [];
      my_user_name = [];
      my_user_uuid = [];
      video_push_ip = [];
      audio_push_ip = [];
      video_push_port = 0;
      audio_push_port = 0;
      video_ssrc = 0;
      audio_ssrc = 0;
      is_signal_running = false;
    }

unfoldable pub on_ws_conference_exit : JsonObject → PortManager → Room → Handled
unfolding leave text_of
on_ws_conference_exit params ports r = record {
  room = leave r;
  ports = ports;
  notices = notice_if r (conference_left (text_of "user_uuid" params));
}

unfoldable pub on_ws_conference_stop : JsonObject → PortManager → Room → Handled
unfolding leave text_of
on_ws_conference_stop params ports r = record {
  room = leave r;
  ports = ports;
  notices = notice_if r (conference_stopped (text_of "conference_id" params));
}

unfoldable pub on_ws_conference_closing : JsonObject → PortManager → Room → Handled
unfolding leave text_of
on_ws_conference_closing params ports r = record {
  room = leave r;
  ports = ports;
  notices = notice_if r (conference_closed (text_of "conference_id" params));
}

unfoldable pub on_ws_conference_user_gone : JsonObject → PortManager → Room → Handled
unfolding text_of remove
on_ws_conference_user_gone params ports r =
    let uuid = text_of "user_uuid" params in
    record {
      room = record r { other_users_map = remove uuid r.other_users_map };
      ports = ports;
      notices = notice_if r (user_gone_out uuid);
    }
