-- ===== src/Process/Messages.antt =====
-- What the subscriber of the running controller handles: the messages, the changes of the connection, and
-- the end of the warming duration.
use cf_app_sd_release.AddressTable.Table.{AddressTable}
use cf_app_sd_release.Base.{Clock, Option, Str}
use cf_app_sd_release.Mbus.Handlers.{
  on_disconnect, on_greet, on_reconnect, on_register, on_unregister, on_warm,
}
use cf_app_sd_release.Mbus.Implementation.{table_ops}
use cf_app_sd_release.Mbus.Subscriber.{Nats, RegistryMessage, Subscriber}

pub data MessageEvent : Type 0 where
  got_register : Str → MessageEvent
  got_unregister : Str → MessageEvent
  got_greeting : Str → MessageEvent
  lost_connection got_connection_back warming_over : MessageEvent

module _ (clock : Clock) (decoder : Str → Option RegistryMessage) (conn : Nats)
    (options_json : Str) where
  unfoldable pub receive : MessageEvent → Subscriber AddressTable → Subscriber AddressTable
  receive (got_register body) s = on_register (table_ops clock) decoder clock s body
  receive (got_unregister body) s = on_unregister (table_ops clock) decoder s body
  receive (got_greeting reply) s = on_greet (table_ops clock) conn options_json s reply
  receive lost_connection s = on_disconnect (table_ops clock) s
  receive got_connection_back s = on_reconnect (table_ops clock) conn options_json s
  receive warming_over s = on_warm (table_ops clock) s
