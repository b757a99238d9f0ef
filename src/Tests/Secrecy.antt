-- ===== src/Tests/Secrecy.antt =====
-- The theorem on the keys of two configurations at a kernel that repeats what it was sent.
use nl_wireguard.Base.{ℕ, ◌≡◌, refl, ap, some, String, List, [], ◌∷◌, ◌++◌, map, map-append}
use nl_wireguard.Packet.{NetlinkMessage}
use nl_wireguard.Redact.{redact_message}
use nl_wireguard.Device.{WireguardParsed}
use nl_wireguard.Handle.{received, replied, Kernel, set}
use nl_wireguard.Secrets.{mask_reply, SameKey, AlikeParsed}
use nl_wireguard.Secrets.Sending.{IsDiscreet, set_alike}
use nl_wireguard.Samples.Encoding.{encode, decode-encode}
use nl_wireguard.Samples.{sample, sample-LengthLaws, sample-KeyLaws}
use nl_wireguard.Tests.{copies, peer, device}
use nl_wireguard.Tests.Handling.{failed}

-- A key that consists of this byte.
abbrev key : ℕ → String
key byte = encode (copies 32 byte)

abbrev keyed : ℕ → ℕ → WireguardParsed
keyed private preshared = record device {
  private_key = some (key private);
  peers = some (record peer { preshared_key = some (key preshared) } ∷ []);
}

keys_alike : (byte other : ℕ) → SameKey (some (key byte)) (some (key other))
keys_alike byte other = rw (decode-encode (copies 32 byte), decode-encode (copies 32 other)) refl

keyed_alike : AlikeParsed (keyed 1 2) (keyed 3 4)
keyed_alike = record {
  rest = refl;
  key = keys_alike 1 3;
  peers = (record { rest = refl; key = keys_alike 2 4 }, tt);
}

-- It sends all requests back, and reports a failure.
abbrev repeats : Kernel
repeats sent = replied (map received sent ++ failed ∷ [])

repeated :
    (sent : List NetlinkMessage)
    → map mask_reply (map received sent) ≡ map received (map redact_message sent)
repeated [] = refl
repeated (m ∷ sent) = ap (λ replies. received (redact_message m) ∷ replies) (repeated sent)

repeats-IsDiscreet : IsDiscreet repeats
repeats-IsDiscreet sent others h = cc (
  h,
  repeated sent,
  repeated others,
  map-append mask_reply (map received sent) (failed ∷ []),
  map-append mask_reply (map received others) (failed ∷ []),
)

set_alike_example :
    ((set repeats (keyed 1 2) []).0 ≡ (set repeats (keyed 3 4) []).0)
    × (map redact_message (set repeats (keyed 1 2) []).1
        ≡ map redact_message (set repeats (keyed 3 4) []).1)
set_alike_example =
    set_alike repeats sample-LengthLaws sample-KeyLaws repeats-IsDiscreet (keyed 1 2) (keyed 3 4)
      keyed_alike []
