-- ===== src/Redact/Secrecy.antt =====
-- What src/redact.rs hides: the keys of a structured message, the copy of a request in an error, and
-- the bytes of an overrun.
use nl_wireguard.Base.{◌≡◌, refl, List, [], ◌∷◌, All, length}
use nl_wireguard.Base.{map as list_map}
use nl_wireguard.Packet.{
  Bytes, WireguardPeerAttribute, WireguardPeer, WireguardAttribute, NetlinkPayload, NetlinkMessage,
  GenlMessage, ErrorMessage,
}
use nl_wireguard.Redact.{fill_zero, redact_peer_attribute, redact_attribute, redact_payload}

-- All bytes are zero.
abbrev pub IsZero : Bytes → Type 0
IsZero = All (λ byte. byte ≡ 0)

abbrev pub IsRedactedPeerAttribute : WireguardPeerAttribute → Type 0
IsRedactedPeerAttribute (WireguardPeerAttribute.preshared_key key) = IsZero key
IsRedactedPeerAttribute attribute = Unit

abbrev pub IsRedactedAttribute : WireguardAttribute → Type 0
IsRedactedAttribute (WireguardAttribute.private_key key) = IsZero key
IsRedactedAttribute (WireguardAttribute.peers peers) = All (All IsRedactedPeerAttribute) peers
IsRedactedAttribute attribute = Unit

-- No private or preshared key but zeros, no copy of a request, and no bytes of an overrun. Nothing is
-- asked of the other payloads, which the program does not touch.
abbrev pub IsRedacted : NetlinkPayload → Type 0
IsRedacted (NetlinkPayload.inner_message genl) = All IsRedactedAttribute genl.payload.attributes
IsRedacted (NetlinkPayload.error e) = e.header ≡ []
IsRedacted (NetlinkPayload.overrun bytes) = bytes ≡ []
IsRedacted payload = Unit

module _ {A : Type 0} (P : A → Type 0) (f : A → A) (h : (a : A) → P (f a)) where
  All-map : (xs : List A) → All P (list_map f xs)
  All-map [] = tt
  All-map (x ∷ xs) = (h x, All-map xs)

fill_zero-IsZero : (key : Bytes) → IsZero (fill_zero key)
fill_zero-IsZero [] = tt
fill_zero-IsZero (byte ∷ key) = (refl, fill_zero-IsZero key)

peer_attribute_redacted :
    (a : WireguardPeerAttribute) → IsRedactedPeerAttribute (redact_peer_attribute a)
unfolding redact_peer_attribute
peer_attribute_redacted (WireguardPeerAttribute.preshared_key key) = fill_zero-IsZero key
peer_attribute_redacted _ = tt

attribute_redacted : (a : WireguardAttribute) → IsRedactedAttribute (redact_attribute a)
unfolding redact_attribute
attribute_redacted (WireguardAttribute.private_key key) = fill_zero-IsZero key
attribute_redacted (WireguardAttribute.peers peers) =
    All-map (All IsRedactedPeerAttribute) (list_map redact_peer_attribute)
      (All-map IsRedactedPeerAttribute redact_peer_attribute peer_attribute_redacted) peers
attribute_redacted _ = tt

pub payload-IsRedacted : (payload : NetlinkPayload) → IsRedacted (redact_payload payload)
unfolding redact_payload
payload-IsRedacted (NetlinkPayload.inner_message genl) =
    All-map IsRedactedAttribute redact_attribute attribute_redacted genl.payload.attributes
payload-IsRedacted (NetlinkPayload.error e) = refl
payload-IsRedacted (NetlinkPayload.overrun bytes) = refl
payload-IsRedacted _ = tt

-- Messages that agree in everything but key bytes (of the same number), the copy of a request in an
-- error, and the bytes of an overrun.
module _ {A : Type 0} (R : A → A → Type 0) where
  abbrev pub Same : List A → List A → Type 0
  Same [] [] = Unit
  Same (x ∷ xs) (y ∷ ys) = R x y × Same xs ys
  Same _ _ = ⊥

  pub Same-refl : ((a : A) → R a a) → (xs : List A) → Same xs xs
  Same-refl h [] = tt
  Same-refl h (x ∷ xs) = (h x, Same-refl h xs)

  -- `f` stays within `R`
  pub Same-map : (f : A → A) → ((a : A) → R a (f a)) → (xs : List A) → Same xs (list_map f xs)
  Same-map f h [] = tt
  Same-map f h (x ∷ xs) = (h x, Same-map f h xs)

  -- `f` forgets what `R` ignores
  pub map-Same :
      {B : Type 0} (f : A → B)
      → ((a b : A) → R a b → f a ≡ f b)
      → (xs ys : List A) → Same xs ys
      → list_map f xs ≡ list_map f ys
  map-Same f h [] [] s = refl
  map-Same f h [] (y ∷ ys) s = absurd s
  map-Same f h (x ∷ xs) [] s = absurd s
  map-Same f h (x ∷ xs) (y ∷ ys) s = cc (h x y s.0, map-Same f h xs ys s.1)

pub data SamePeerAttribute : WireguardPeerAttribute → WireguardPeerAttribute → Type 0 where
  other_key :
      (k l : Bytes)
      → length k ≡ length l
      → SamePeerAttribute
          (WireguardPeerAttribute.preshared_key k)
          (WireguardPeerAttribute.preshared_key l)
  same : (a : WireguardPeerAttribute) → SamePeerAttribute a a

pub data SameAttribute : WireguardAttribute → WireguardAttribute → Type 0 where
  other_key :
      (k l : Bytes)
      → length k ≡ length l
      → SameAttribute (WireguardAttribute.private_key k) (WireguardAttribute.private_key l)
  other_peers :
      (ps qs : List WireguardPeer)
      → Same (Same SamePeerAttribute) ps qs
      → SameAttribute (WireguardAttribute.peers ps) (WireguardAttribute.peers qs)
  same : (a : WireguardAttribute) → SameAttribute a a

pub data SamePayload : NetlinkPayload → NetlinkPayload → Type 0 where
  other_inner :
      (g h : GenlMessage)
      → g.header ≡ h.header
      → g.payload.cmd ≡ h.payload.cmd
      → Same SameAttribute g.payload.attributes h.payload.attributes
      → SamePayload (NetlinkPayload.inner_message g) (NetlinkPayload.inner_message h)
  other_echo :
      (e f : ErrorMessage)
      → e.code ≡ f.code
      → SamePayload (NetlinkPayload.error e) (NetlinkPayload.error f)
  other_overrun : (b d : Bytes) → SamePayload (NetlinkPayload.overrun b) (NetlinkPayload.overrun d)
  same : (p : NetlinkPayload) → SamePayload p p

abbrev pub SameButKeys : NetlinkMessage → NetlinkMessage → Type 0
SameButKeys m n = (m.header ≡ n.header) × SamePayload m.payload n.payload
