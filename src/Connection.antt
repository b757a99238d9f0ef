-- ===== src/Connection.antt =====
-- src/connection.rs: opening a connection, and `WireguardHandle::new` of src/handle.rs.
pub mod Dumps
use nl_wireguard.Base.{Bool, true, String, List, [], ◌∷◌, ◌++◌, map, none, some, ◌≡◌, ◌⊎◌, inl, inr}
use nl_wireguard.Base.Int.{ℤ}
use nl_wireguard.Packet.{
  Bytes, GenlMessage, DoneMessage, NetlinkHeader, NetlinkMessage, NetlinkPayload,
}
use nl_wireguard.Handle.{Kernel, Reply, received, replied}

-- A message of a dump.
pub record Part : Type 0 where
  pub header : NetlinkHeader
  pub genl : GenlMessage

abbrev pub part_reply : Part → Reply
part_reply part =
    received (record { header = part.header; payload = NetlinkPayload.inner_message part.genl })

-- The replies of a dump: its messages and the one that ends it.
abbrev pub dump : List Part → NetlinkHeader → DoneMessage → List Reply
dump parts header done =
    map part_reply parts
    ++ received (record { header = header; payload = NetlinkPayload.done done }) ∷ []

-- The reply that acknowledges a request, and the one that rejects it with this code; both hold a
-- copy of the request.
abbrev pub acknowledgement : NetlinkHeader → Bytes → Reply
acknowledgement header echo = received (record {
  header = header;
  payload = NetlinkPayload.error (record { code = none; header = echo });
})

abbrev pub rejection : NetlinkHeader → Bytes → ℤ → Reply
rejection header echo code = received (record {
  header = header;
  payload = NetlinkPayload.error (record { code = some code; header = echo });
})

-- What the source uses of the connections and handles of the genetlink crate. `answers` is what
-- the kernel sends in reply to the requests of a handle, `passes_on` is what the stream of a
-- request yields of it while this connection is driven. The laws are about the shapes of answers
-- that the comments of src/connection.rs and of `set` describe, and about no other.
pub record Genetlink (Connection GenetlinkHandle : Type 0) : Type 0 where
  pub set_forward_done : Connection → Bool → Connection
  pub answers : GenetlinkHandle → Kernel
  pub passes_on : Connection → GenetlinkHandle → Kernel
  -- a connection told to forward the message that ends a dump yields the dump with that message
  pub forwards :
      (conn : Connection) (handle : GenetlinkHandle) (sent : List NetlinkMessage)
      (parts : List Part) (header : NetlinkHeader) (done : DoneMessage)
      → answers handle sent ≡ replied (dump parts header done)
      → passes_on (set_forward_done conn true) handle sent ≡ replied (dump parts header done)
  -- an acknowledgement ends the stream without yielding an item
  pub acknowledges :
      (conn : Connection) (handle : GenetlinkHandle) (sent : List NetlinkMessage)
      (header : NetlinkHeader) (echo : Bytes)
      → answers handle sent ≡ replied (acknowledgement header echo ∷ [])
      → passes_on conn handle sent ≡ replied []
  -- an error is yielded
  pub rejects :
      (conn : Connection) (handle : GenetlinkHandle) (sent : List NetlinkMessage)
      (header : NetlinkHeader) (echo : Bytes) (code : ℤ)
      → answers handle sent ≡ replied (rejection header echo code ∷ [])
      → passes_on conn handle sent ≡ replied (rejection header echo code ∷ [])

pub record WireguardHandle {ℓ} (GenetlinkHandle : Type ℓ) : Type ℓ where
  pub handle : GenetlinkHandle

-- `WireguardHandle::new`
unfoldable pub new {ℓ} :
    {GenetlinkHandle : Type ℓ} → GenetlinkHandle → WireguardHandle GenetlinkHandle
new handle = record { handle = handle }

module _ {Connection GenetlinkHandle Receiver : Type 0} where
  module _ (genetlink : Genetlink Connection GenetlinkHandle) where
    -- The argument is what `genetlink::new_connection_with_socket` returned, an error as its text.
    unfoldable pub new_connection_with_socket :
        String ⊎ (Connection × GenetlinkHandle × Receiver)
        → String ⊎ (Connection × WireguardHandle GenetlinkHandle × Receiver)
    unfolding new
    new_connection_with_socket (inl e) = inl e
    new_connection_with_socket (inr (conn, handle, messages)) =
        inr (genetlink.set_forward_done conn true, new handle, messages)

    unfoldable pub new_connection :
        String ⊎ (Connection × GenetlinkHandle × Receiver)
        → String ⊎ (Connection × WireguardHandle GenetlinkHandle × Receiver)
    unfolding new_connection_with_socket
    new_connection opened = new_connection_with_socket opened
