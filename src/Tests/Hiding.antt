-- ===== src/Tests/Hiding.antt =====
-- The theorems on the `Debug` output at peers and configurations that differ in their keys.
use mathlib.Core.Option
use nl_wireguard.Base.{◌≡◌, refl, some, [], ◌∷◌}
use nl_wireguard.Peer.{WireguardPeerParsed, default_peer}
use nl_wireguard.Device.{WireguardParsed, default_device}
use nl_wireguard.Debug.{Derived, fmt_parsed}
use nl_wireguard.Debug.Hidden.{fmt_parsed_same}

abbrev first_peer : WireguardPeerParsed
first_peer = record default_peer { preshared_key = some "first" }

abbrev second_peer : WireguardPeerParsed
second_peer = record default_peer { preshared_key = some "second" }

abbrev first_device : WireguardParsed
first_device = record default_device { private_key = some "one"; peers = some (first_peer ∷ []) }

abbrev second_device : WireguardParsed
second_device = record default_device { private_key = some "two"; peers = some (second_peer ∷ []) }

-- A formatting that shows the keys of its view.
abbrev shows_keys : Derived
shows_keys = record {
  fmt_peer = λ view alternate. Option.get_or view.preshared_key "no key";
  fmt_parsed = λ view alternate. Option.get_or view.private_key "no key";
}

fmt_parsed_same_example : fmt_parsed shows_keys first_device ≡ fmt_parsed shows_keys second_device
fmt_parsed_same_example =
    fmt_parsed_same shows_keys first_device second_device (record {
      rest = refl;
      presence = refl;
      peers = (record { rest = refl; presence = refl }, tt);
    })
