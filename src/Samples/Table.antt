-- ===== src/Samples/Table.antt =====
-- A device that keeps a table of its peers: their settings by public key, and the allowed IPs of
-- each in the order in which they were added. A peer is removed, is left alone if it may only be
-- updated and is not there, and loses its allowed IPs first if they are to be replaced.
use nl_wireguard.Base.{
  ℕ, ◌≡◌, refl, ap, ◌∙◌, Bool, true, false, ◌&&◌, ◌||◌, not, Option, some, List, [], ◌∷◌, ◌++◌,
  append_assoc, append-nil, concat_map, concat_map-append, ==_refl, All, if◌then◌else◌, Bool-cases,
  inl, inr,
}
use nl_wireguard.Packet.{
  Bytes, WireguardAllowedIp, WireguardPeerAttribute, WireguardPeer, WireguardAttribute,
}
use nl_wireguard.Crates.{Crates}
use nl_wireguard.Split.{find_public_key}
use nl_wireguard.Split.Chunks.{ips_of}
use nl_wireguard.Split.Parts.{HoldsNoIps}
use nl_wireguard.Split.Devices.{Interface, Creates}
use nl_wireguard.UnitTests.{same_bytes}

pub record Entry : Type 0 where
  pub key : Bytes
  pub settings : List WireguardPeerAttribute
  pub allowed_ips : List WireguardAllowedIp

pub record Table : Type 0 where
  pub properties : List WireguardAttribute
  pub entries : List Entry

abbrev pub set_property : Table → WireguardAttribute → Table
set_property s (WireguardAttribute.if_name name) = s
set_property s (WireguardAttribute.if_index index) = s
set_property s attr = record s { properties = s.properties ++ attr ∷ [] }

abbrev setting : WireguardPeerAttribute → List WireguardPeerAttribute
setting (WireguardPeerAttribute.public_key key) = []
setting (WireguardPeerAttribute.flags bits) = []
setting (WireguardPeerAttribute.allowed_ips ips) = []
setting attr = attr ∷ []

abbrev flag_bits : WireguardPeerAttribute → List ℕ
flag_bits (WireguardPeerAttribute.flags bits) = bits ∷ []
flag_bits attr = []

-- What a request says of a peer, beside its key.
record Change : Type 0 where
  settings : List WireguardPeerAttribute
  ips : List WireguardAllowedIp
  flags : List ℕ

abbrev change_of : WireguardPeer → Change
change_of peer = record {
  settings = concat_map setting peer;
  ips = ips_of peer;
  flags = concat_map flag_bits peer;
}

abbrev any_bits : (ℕ → Bool) → List ℕ → Bool
any_bits test [] = false
any_bits test (bits ∷ more) = test bits || any_bits test more

-- The entry of this key with more settings and allowed IPs, made if it is missing.
put : Bytes → (replace : Bool) → Change → List Entry → List Entry
put key replace change [] =
    (record { key = key; settings = change.settings; allowed_ips = change.ips }) ∷ []
put key replace change (entry ∷ entries) =
    let rest = put key replace change entries in
    if same_bytes entry.key key
    then (record {
      key = entry.key;
      settings = entry.settings ++ change.settings;
      allowed_ips = (if replace then [] else entry.allowed_ips) ++ change.ips;
    })
      ∷ entries
    else entry ∷ rest

drop_entry : Bytes → List Entry → List Entry
drop_entry key [] = []
drop_entry key (entry ∷ entries) =
    let rest = drop_entry key entries in if same_bytes entry.key key then rest else entry ∷ rest

holds : Bytes → List Entry → Bool
holds key [] = false
holds key (entry ∷ entries) = same_bytes entry.key key || holds key entries

module _ ⦃c : Crates⦄ where
  abbrev flagged : ℕ → Change → Bool
  flagged flag change = any_bits (λ bits. c.peer_contains bits flag) change.flags

  change_entries : Bytes → Change → List Entry → List Entry
  unfolding put drop_entry holds
  change_entries key change entries =
      if flagged c.peer_remove_me change
      then drop_entry key entries
      else if flagged c.peer_update_only change && not (holds key entries)
      then entries
      else put key (flagged c.peer_replace_allowed_ips change) change entries

  change_table : Option WireguardPeerAttribute → Change → Table → Table
  unfolding change_entries
  change_table (some (WireguardPeerAttribute.public_key key)) change s = record s {
    entries = change_entries key change s.entries;
  }
  change_table _ change s = s

  pub set_entry : Table → WireguardPeer → Table
  unfolding change_table
  set_entry s peer = change_table (find_public_key peer) (change_of peer) s

find_moved :
    (xs ys : List WireguardPeerAttribute) (ips : List WireguardAllowedIp)
    → find_public_key (xs ++ WireguardPeerAttribute.allowed_ips ips ∷ ys)
      ≡ find_public_key ((xs ++ ys) ++ WireguardPeerAttribute.allowed_ips ips ∷ [])
unfolding find_public_key
find_moved [] ys ips = find_appended ys ips
  where
    find_appended :
        (ys : List WireguardPeerAttribute) (ips : List WireguardAllowedIp)
        → find_public_key ys ≡ find_public_key (ys ++ WireguardPeerAttribute.allowed_ips ips ∷ [])
    find_appended [] ips = refl
    find_appended (WireguardPeerAttribute.public_key v ∷ ys) ips = refl
    find_appended (y ∷ ys) ips = find_appended ys ips
find_moved (WireguardPeerAttribute.public_key v ∷ xs) ys ips = refl
find_moved (x ∷ xs) ys ips = find_moved xs ys ips

find_first :
    (xs ys : List WireguardPeerAttribute) (key : Bytes)
    → find_public_key xs ≡ some (WireguardPeerAttribute.public_key key)
    → find_public_key (xs ++ ys) ≡ some (WireguardPeerAttribute.public_key key)
unfolding find_public_key
find_first [] ys key h = cc h
find_first (WireguardPeerAttribute.public_key v ∷ xs) ys key h = h
find_first (x ∷ xs) ys key h = find_first xs ys key h

bytes_same : (bytes : Bytes) → same_bytes bytes bytes ≡ true
bytes_same [] = refl
bytes_same (x ∷ xs) = cc (==_refl x, bytes_same xs)

moved :
    {B : Type 0} (f : WireguardPeerAttribute → List B) (xs ys : List WireguardPeerAttribute)
    (ips : List WireguardAllowedIp)
    → f (WireguardPeerAttribute.allowed_ips ips) ≡ []
    → concat_map f (xs ++ WireguardPeerAttribute.allowed_ips ips ∷ ys)
      ≡ concat_map f ((xs ++ ys) ++ WireguardPeerAttribute.allowed_ips ips ∷ [])
moved f xs ys ips h = simp (concat_map-append, h, append-nil)

ips_moved :
    (xs ys : List WireguardPeerAttribute) (ips : List WireguardAllowedIp)
    → HoldsNoIps ys
    → ips_of (xs ++ WireguardPeerAttribute.allowed_ips ips ∷ ys)
      ≡ ips_of ((xs ++ ys) ++ WireguardPeerAttribute.allowed_ips ips ∷ [])
ips_moved xs ys ips h = simp (concat_map-append, h.1, append-nil)

-- A second change of the same key adds to the first.
abbrev more_ips : List WireguardAllowedIp → Change
more_ips ips = record { settings = []; ips = ips; flags = [] }

put_twice :
    (key : Bytes) (replace : Bool) (change : Change) (ys : List WireguardAllowedIp)
    (entries : List Entry)
    → put key false (more_ips ys) (put key replace change entries)
      ≡ put key replace (record change { ips = change.ips ++ ys }) entries
unfolding put
put_twice key replace change ys [] = rw (bytes_same key) (cc (append-nil change.settings))
put_twice key replace change ys (entry ∷ entries) = elim (Bool-cases (same_bytes entry.key key)) [
  | inl same ↦
      rw (same, same)
        (cc (
          append-nil (entry.settings ++ change.settings),
          append_assoc (if replace then [] else entry.allowed_ips) change.ips ys,
        ))
  | inr other ↦ rw (other, other) (ap (λ es. entry ∷ es) (put_twice key replace change ys entries))
]

module _ ⦃c : Crates⦄ where
  not_flagged :
      (state : List WireguardPeerAttribute)
      → All Creates state
      → (any_bits (λ bits. c.peer_contains bits c.peer_remove_me) (concat_map flag_bits state)
          ≡ false)
        × (any_bits (λ bits. c.peer_contains bits c.peer_update_only) (concat_map flag_bits state)
            ≡ false)
  not_flagged [] h = (refl, refl)
  not_flagged (WireguardPeerAttribute.flags bits ∷ state) h =
      (cc (h.0.0, (not_flagged state h.1).0), cc (h.0.1, (not_flagged state h.1).1))
  not_flagged (_ ∷ state) h = not_flagged state h.1

  pub entry_moved :
      (s : Table) (xs ys : List WireguardPeerAttribute) (ips : List WireguardAllowedIp)
      → HoldsNoIps ys
      → set_entry s (xs ++ WireguardPeerAttribute.allowed_ips ips ∷ ys)
        ≡ set_entry s ((xs ++ ys) ++ WireguardPeerAttribute.allowed_ips ips ∷ [])
  unfolding set_entry
  entry_moved s xs ys ips h = cc (
    find_moved xs ys ips,
    ips_moved xs ys ips h,
    moved setting xs ys ips refl,
    moved flag_bits xs ys ips refl,
  )

  -- The change that a chunk with these attributes makes.
  abbrev change_with : List WireguardPeerAttribute → List WireguardAllowedIp → Change
  change_with state ips = record {
    settings = concat_map setting state;
    ips = ips_of state ++ ips;
    flags = concat_map flag_bits state;
  }

  chunk_change :
      (state : List WireguardPeerAttribute) (ips : List WireguardAllowedIp)
      → change_of (state ++ WireguardPeerAttribute.allowed_ips ips ∷ []) ≡ change_with state ips
  chunk_change state ips = simp (concat_map-append, append-nil)

  table_twice :
      (key : Bytes) (change : Change) (ys : List WireguardAllowedIp) (s : Table)
      → flagged c.peer_remove_me change ≡ false
      → flagged c.peer_update_only change ≡ false
      → change_table
          (some (WireguardPeerAttribute.public_key key))
          (more_ips ys)
          (change_table (some (WireguardPeerAttribute.public_key key)) change s)
        ≡ change_table
            (some (WireguardPeerAttribute.public_key key))
            (record change { ips = change.ips ++ ys })
            s
  unfolding change_table change_entries
  table_twice key change ys s kept created =
      let twice = put_twice key (flagged c.peer_replace_allowed_ips change) change ys s.entries in
      rw (kept, created) (ap (λ es. record s { entries = es }) twice)

  pub entry_continues :
      (s : Table) (state : List WireguardPeerAttribute) (key : Bytes)
      (xs ys : List WireguardAllowedIp)
      → find_public_key state ≡ some (WireguardPeerAttribute.public_key key)
      → All Creates state
      → set_entry
          (set_entry s (state ++ WireguardPeerAttribute.allowed_ips xs ∷ []))
          (WireguardPeerAttribute.public_key key ∷ WireguardPeerAttribute.allowed_ips ys ∷ [])
        ≡ set_entry s (state ++ WireguardPeerAttribute.allowed_ips (xs ++ ys) ∷ [])
  unfolding set_entry find_public_key
  entry_continues s state key xs ys h may =
      let k = some (WireguardPeerAttribute.public_key key) in
      let change = change_with state xs in
      let both = change_with state (xs ++ ys) in
      let first : set_entry s (state ++ WireguardPeerAttribute.allowed_ips xs ∷ [])
          ≡ change_table k change s =
        cc (
          find_first state (WireguardPeerAttribute.allowed_ips xs ∷ []) key h,
          chunk_change state xs,
        ) in
      let whole : set_entry s (state ++ WireguardPeerAttribute.allowed_ips (xs ++ ys) ∷ [])
          ≡ change_table k both s =
        cc (
          find_first state (WireguardPeerAttribute.allowed_ips (xs ++ ys) ∷ []) key h,
          chunk_change state (xs ++ ys),
        ) in
      let twice = table_twice key change ys s (not_flagged state may).0 (not_flagged state may).1 in
      rw (first, whole)
        (ap (λ ips. change_table k (more_ips ips) (change_table k change s)) (append-nil ys)
          ∙ (twice
              ∙ ap (λ ips. change_table k (record change { ips = ips }) s)
                  (append_assoc (ips_of state) xs ys)))

  abbrev pub tabular : Interface Table
  tabular = record {
    set_attribute = set_property;
    set_peer = set_entry;
    names = λ s name. refl;
    indexes = λ s index. refl;
    ips_last = entry_moved;
    continues = entry_continues;
  }
