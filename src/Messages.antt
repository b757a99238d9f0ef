-- ===== src/Messages.antt =====
-- `build_messages` and `build` of src/parsed.rs: a configuration as one message or several.
pub mod Groups
pub mod Packing
pub mod Loops
pub mod Fewest
pub mod Applied
pub mod Supported
pub mod Accepted
pub mod Again
pub mod Total
pub mod RoundTrip
pub mod Bounds
pub mod Distinct
use mathlib.Core.List.{head?}
use mathlib.Core.Option
use nl_wireguard.Base.{
  ℕ, ◌+◌, Bool, not, ◌&&◌, List, [], ◌∷◌, ◌++◌, none, some, Option, if◌then◌else◌, ltb, length,
  is_empty, ◌||◌, flatten_option,
}
use nl_wireguard.Base.Text.{◌+++◌, show}
use nl_wireguard.Packet.{WireguardCmd, WireguardPeer, WireguardMessage}
use nl_wireguard.Crates.{Crates}
use nl_wireguard.Error.{ErrorKind, Result, ok, err, error_new, ◌>>=◌}
use nl_wireguard.Peer.{WireguardPeerParsed}
use nl_wireguard.Split.{peer_chunks, max_nla_value_len}
use nl_wireguard.Device.{WireguardParsed, build_message}

-- The local variables of `build_messages`.
pub record Builder : Type 0 where
  pub messages : List WireguardMessage
  pub peers : List WireguardPeer
  pub peers_len : ℕ

abbrev pub no_messages : Builder
no_messages = record { messages = []; peers = []; peers_len = 0 }

-- `build` once the messages are there; `none` is the panic of `messages.remove(0)` on an empty list.
unfoldable pub single_message : Result (List WireguardMessage) → Option (Result WireguardMessage)
single_message (err e) = some (err e)
single_message (ok messages) =
    if ltb 1 (length messages)
    then some (
        err (
          error_new ErrorKind.invalid_input
            ("The configuration requires "
              +++ show (length messages)
              +++ " netlink messages, please use `WireguardHandle::set()`")
            none))
    else Option.map ok (head? messages)

module _ ⦃c : Crates⦄ (self : WireguardParsed) (cmd : WireguardCmd) where
  -- The test of the inner loop, and what it does then: the peers so far become a message.
  unfoldable pub flush : Builder → ℕ → Result Builder
  flush b chunk_len =
      if not (is_empty b.peers) && ltb max_nla_value_len (b.peers_len + chunk_len)
      then (do
        message ← build_message self cmd (is_empty b.messages) b.peers
        ok (record { messages = b.messages ++ message ∷ []; peers = []; peers_len = 0 }))
      else ok b

  -- One round of the inner loop of `build_messages`.
  unfoldable pub add_chunk : Builder → WireguardPeer → Result Builder
  unfolding flush
  add_chunk b chunk = do
    b' ← flush b (c.peer_buffer_len chunk)
    ok (record b' {
      peers = b'.peers ++ chunk ∷ [];
      peers_len = b'.peers_len + c.peer_buffer_len chunk;
    })

  unfoldable pub add_chunks : Builder → List WireguardPeer → Result Builder
  unfolding add_chunk
  add_chunks b [] = ok b
  add_chunks b (chunk ∷ chunks) = do b' ← add_chunk b chunk; add_chunks b' chunks

  -- The outer loop.
  unfoldable pub add_peers : Builder → List WireguardPeerParsed → Result Builder
  unfolding add_chunks
  add_peers b [] = ok b
  add_peers b (peer ∷ peers) = do
    chunks ← peer_chunks peer
    b' ← add_chunks b chunks
    add_peers b' peers

  -- What follows the loops.
  unfoldable pub finish : Builder → Result (List WireguardMessage)
  finish b =
      if not (is_empty b.peers) || is_empty b.messages
      then (do
        message ← build_message self cmd (is_empty b.messages) b.peers
        ok (b.messages ++ message ∷ []))
      else ok b.messages

  unfoldable pub build_messages : Result (List WireguardMessage)
  unfolding add_peers finish
  build_messages = do b ← add_peers no_messages (flatten_option self.peers); finish b

  unfoldable pub build : Option (Result WireguardMessage)
  unfolding single_message
  build = single_message build_messages
