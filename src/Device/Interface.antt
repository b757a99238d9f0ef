-- ===== src/Device/Interface.antt =====
-- Which interface attribute `iface_attribute` of src/parsed.rs builds.
use nl_wireguard.Base.{
  ℕ, ◌<◌, ◌≡◌, ◌↔◌, ◌⊎◌, inl, inr, false, none, some, Option-cases, String, leb, Bool-cases, arith,
}
use nl_wireguard.Base.Text.{len, contains_nul}
use nl_wireguard.Packet.{WireguardAttribute}
use nl_wireguard.Crates.{Crates}
use nl_wireguard.Error.{ok}
use nl_wireguard.Device.{WireguardParsed, ifnamsiz, iface_attribute}

-- The attribute holds the name of the interface, which is short enough and holds no NUL byte.
pub record IsNamed (self : WireguardParsed) (iface : WireguardAttribute) : Type 0 where
  pub name : String
  pub has_name : self.iface_name ≡ some name
  pub short : len name < ifnamsiz
  pub plain : contains_nul name ≡ false
  pub made : iface ≡ WireguardAttribute.if_name name

-- There is no name, and the attribute holds the index of the interface.
pub record IsIndexed (self : WireguardParsed) (iface : WireguardAttribute) : Type 0 where
  pub index : ℕ
  pub no_name : self.iface_name ≡ none
  pub has_index : self.iface_index ≡ some index
  pub made : iface ≡ WireguardAttribute.if_index index

leb→lt : (a b : ℕ) → leb a b ≡ false → b < a
leb→lt a b h = ground arith

lt→leb : (a b : ℕ) → b < a → leb a b ≡ false
lt→leb a b h = ground arith

module _ ⦃c : Crates⦄ (self : WireguardParsed) (iface : WireguardAttribute) where
  pub iface_cases : iface_attribute self ≡ ok iface → IsNamed self iface ⊎ IsIndexed self iface
  unfolding iface_attribute
  iface_cases h = elim (Option-cases self.iface_name) [
    | inl no_name ↦ elim (Option-cases self.iface_index) [
      | inl no_index ↦ cc ((rw (no_name, no_index, iface_attribute) at h))
      | inr (index, e) ↦ inr (record {
        index = index;
        no_name = no_name;
        has_index = e;
        made = cc ((rw (no_name, e, iface_attribute) at h));
      })
    ]
    | inr (name, e) ↦ elim (Bool-cases (leb ifnamsiz (len name))) [
      | inl long ↦ cc ((rw (e, long, iface_attribute) at h))
      | inr short ↦ elim (Bool-cases (contains_nul name)) [
        | inl holds_nul ↦ cc ((rw (e, short, holds_nul, iface_attribute) at h))
        | inr plain ↦ inl (record {
          name = name;
          has_name = e;
          short = leb→lt ifnamsiz (len name) short;
          plain = plain;
          made = cc ((rw (e, short, plain, iface_attribute) at h));
        })
      ]
    ]
  ]

  pub iface_made : IsNamed self iface ⊎ IsIndexed self iface → iface_attribute self ≡ ok iface
  unfolding iface_attribute
  iface_made (inl n) =
      rw (n.has_name, lt→leb ifnamsiz (len n.name) n.short, n.plain, iface_attribute) (cc n.made)
  iface_made (inr i) = rw (i.no_name, i.has_index, iface_attribute) (cc i.made)

  -- An interface attribute is built exactly if the configuration has a name of less than 16 bytes
  -- without a NUL byte, and is that name; or if it has no name but an index, and is that index. A
  -- name that is refused is never replaced by the index.
  pub iface_attribute_iff :
      (iface_attribute self ≡ ok iface) ↔ (IsNamed self iface ⊎ IsIndexed self iface)
  iface_attribute_iff = (iface_cases, iface_made)
