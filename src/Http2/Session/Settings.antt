-- ===== src/Http2/Session/Settings.antt =====
-- The SETTINGS exchange.
use tailscale_iot.Base.{◌≡◌, some, true, false, ◌&&◌, if◌then◌else◌, arith}
use tailscale_iot.Http2.Frame.{Frame}
use tailscale_iot.Http2.Session.{
  Session, send_settings_ack, read_frame, is_server_settings, process_control_frames,
}

-- Once the acknowledgement is out it is never sent again.
pub send_settings_ack_once :
    (s : Session)
    → (send_settings_ack s).1 ≡ true
    → send_settings_ack (send_settings_ack s).0 ≡ ((send_settings_ack s).0, true)
unfolding send_settings_ack
send_settings_ack_once s h = ground arith

-- While the exchange is open and a frame was read, the call succeeds exactly if that frame is a
-- SETTINGS frame on stream 0 without the ACK flag and the acknowledgement can be sent. No other
-- frame is answered.
pub process_control_frames_answer :
    (s : Session) (f : Frame)
    → s.settings_exchanged ≡ false
    → (read_frame s).1 ≡ some f
    → ((process_control_frames s).1
        ≡ (is_server_settings f && (send_settings_ack (read_frame s).0).1))
      × ((process_control_frames s).0.sent ≡ (
          if is_server_settings f
          then (send_settings_ack (read_frame s).0).0.sent
          else (read_frame s).0.sent))
unfolding process_control_frames
process_control_frames_answer s f h e = ground (arith, e)

-- Once the exchange has succeeded, a further call reads nothing and sends nothing.
pub process_control_frames_once :
    (s : Session)
    → (process_control_frames s).1 ≡ true
    → process_control_frames (process_control_frames s).0 ≡ ((process_control_frames s).0, true)
unfolding process_control_frames
process_control_frames_once s h = ground arith
