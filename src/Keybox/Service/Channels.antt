-- ===== src/Keybox/Service/Channels.antt =====
-- The life of a channel's context.
use trusty_app_sample.Common.{
  Event, Run, arith, fault, if◌then◌else◌, ok, use_after_free, ◌&&◌, ◌||◌, ◌≡◌,
}
use trusty_app_sample.Keybox.Unwrap.{Status}
use trusty_app_sample.Keybox.Service.{freed, is_failure, keybox_chan_handler, keybox_shutdown, live}

module _ (handle_chan_errors : Event → Run (Unit {0})) (handle_msg : Run Status) where
  -- The handler on a live context, when the event is no channel error and the message handler
  -- returns `rc`: the context is freed if the peer has closed the channel or the message failed,
  -- and kept if neither; if both, it is freed twice, and the second `close` reads freed memory.
  pub keybox_chan_handler_cases :
      (ev : Event) (rc : Status)
      → handle_chan_errors ev ≡ ok tt
      → handle_msg ≡ ok rc
      → keybox_chan_handler handle_chan_errors handle_msg ev live ≡ (
          if ev.hup && (ev.msg && is_failure rc)
          then fault use_after_free
          else if ev.hup || (ev.msg && is_failure rc)
          then ok freed
          else ok live)
  unfolding keybox_chan_handler keybox_shutdown
  keybox_chan_handler_cases ev rc e h = ground arith
