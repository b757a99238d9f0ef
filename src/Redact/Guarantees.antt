-- ===== src/Redact/Guarantees.antt =====
-- `redact_message` of src/redact.rs and the predicates of Secrecy.
use nl_wireguard.Base.{◌≡◌, refl, ap, [], ◌∷◌, length, length-map, sym, arith}
use nl_wireguard.Base.{map as list_map}
use nl_wireguard.Packet.{
  Bytes, WireguardPeerAttribute, WireguardAttribute, NetlinkPayload, NetlinkMessage,
}
use nl_wireguard.Redact.{
  fill_zero, redact_peer_attribute, redact_attribute, redact_payload, redact_message,
}
use nl_wireguard.Redact.Secrecy.{
  IsRedacted, payload-IsRedacted, Same, Same-map, map-Same, SamePeerAttribute, SameAttribute,
  SamePayload, SameButKeys,
}

peer_attribute_kept : (a : WireguardPeerAttribute) → SamePeerAttribute a (redact_peer_attribute a)
unfolding redact_peer_attribute
peer_attribute_kept (WireguardPeerAttribute.preshared_key key) =
    SamePeerAttribute.other_key key (fill_zero key) (sym (length-map _ key))
peer_attribute_kept _ = SamePeerAttribute.same _

attribute_kept : (a : WireguardAttribute) → SameAttribute a (redact_attribute a)
unfolding redact_attribute
attribute_kept (WireguardAttribute.private_key key) =
    SameAttribute.other_key key (fill_zero key) (sym (length-map _ key))
attribute_kept (WireguardAttribute.peers peers) =
    SameAttribute.other_peers peers (list_map (list_map redact_peer_attribute) peers) (
      Same-map (Same SamePeerAttribute) (list_map redact_peer_attribute)
        (Same-map SamePeerAttribute redact_peer_attribute peer_attribute_kept) peers)
attribute_kept _ = SameAttribute.same _

payload_kept : (payload : NetlinkPayload) → SamePayload payload (redact_payload payload)
unfolding redact_payload
payload_kept (NetlinkPayload.inner_message genl) =
    SamePayload.other_inner genl _ refl refl
      (Same-map SameAttribute redact_attribute attribute_kept genl.payload.attributes)
payload_kept (NetlinkPayload.error e) = SamePayload.other_echo e _ refl
payload_kept (NetlinkPayload.overrun bytes) = SamePayload.other_overrun bytes []
payload_kept _ = SamePayload.same _

-- The payloads of the types that redaction does not know stay as they are.
abbrev pub IsUntouched : NetlinkPayload → NetlinkPayload → Type 0
IsUntouched (NetlinkPayload.inner_message genl) after = Unit
IsUntouched (NetlinkPayload.error e) after = Unit
IsUntouched (NetlinkPayload.overrun bytes) after = Unit
IsUntouched (NetlinkPayload.done done) after = after ≡ NetlinkPayload.done done
IsUntouched NetlinkPayload.noop after = after ≡ NetlinkPayload.noop
IsUntouched (NetlinkPayload.other kind) after = after ≡ NetlinkPayload.other kind

payload-IsUntouched : (payload : NetlinkPayload) → IsUntouched payload (redact_payload payload)
unfolding redact_payload
payload-IsUntouched (NetlinkPayload.inner_message genl) = tt
payload-IsUntouched (NetlinkPayload.error e) = tt
payload-IsUntouched (NetlinkPayload.overrun bytes) = tt
payload-IsUntouched (NetlinkPayload.done done) = refl
payload-IsUntouched NetlinkPayload.noop = refl
payload-IsUntouched (NetlinkPayload.other kind) = refl

-- Redaction leaves no private or preshared key but zeros in a structured message, no copy of a
-- request in an error, and no bytes in an overrun. It changes nothing else: the header, the command,
-- the attributes and their order, the length of each key, the code of an error, and all of a message
-- of another type stay, also the extended acknowledgement of the message that ends a dump.
pub redact_message_lem :
    (m : NetlinkMessage)
    → IsRedacted (redact_message m).payload
      × SameButKeys m (redact_message m)
      × IsUntouched m.payload (redact_message m).payload
unfolding redact_message
redact_message_lem m =
    (payload-IsRedacted m.payload, (refl, payload_kept m.payload), payload-IsUntouched m.payload)

pub fill_zero_same : (k l : Bytes) → length k ≡ length l → fill_zero k ≡ fill_zero l
fill_zero_same [] [] h = refl
fill_zero_same [] (y ∷ l) h = cc
fill_zero_same (x ∷ k) [] h = cc
fill_zero_same (x ∷ k) (y ∷ l) h = cc (fill_zero_same k l (omega arith))

peer_attribute_same :
    (a b : WireguardPeerAttribute)
    → SamePeerAttribute a b
    → redact_peer_attribute a ≡ redact_peer_attribute b
unfolding redact_peer_attribute
peer_attribute_same _ _ (SamePeerAttribute.other_key k l h) = cc (fill_zero_same k l h)
peer_attribute_same _ _ (SamePeerAttribute.same a) = refl

attribute_same :
    (a b : WireguardAttribute) → SameAttribute a b → redact_attribute a ≡ redact_attribute b
unfolding redact_attribute
attribute_same _ _ (SameAttribute.other_key k l h) = cc (fill_zero_same k l h)
attribute_same _ _ (SameAttribute.other_peers ps qs h) = ap WireguardAttribute.peers (
    map-Same (Same SamePeerAttribute) (list_map redact_peer_attribute)
      (map-Same SamePeerAttribute redact_peer_attribute peer_attribute_same) ps qs h)
attribute_same _ _ (SameAttribute.same a) = refl

payload_same : (p q : NetlinkPayload) → SamePayload p q → redact_payload p ≡ redact_payload q
unfolding redact_payload
payload_same _ _ (SamePayload.other_inner g h e f s) = cc (
  e,
  f,
  map-Same SameAttribute redact_attribute attribute_same g.payload.attributes h.payload.attributes
      s,
)
payload_same _ _ (SamePayload.other_echo e f h) = cc h
payload_same _ _ (SamePayload.other_overrun b d) = refl
payload_same _ _ (SamePayload.same p) = refl

-- What an error keeps of a message is the same for any keys, copies of requests and bytes of overruns: two messages that
-- agree in everything else are redacted to the same message.
pub redact_message_same :
    (m n : NetlinkMessage) → SameButKeys m n → redact_message m ≡ redact_message n
unfolding redact_message
redact_message_same m n h = cc (h.0, payload_same m.payload n.payload h.1)
