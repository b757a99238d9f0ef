-- ===== src/Messages/Total.antt =====
-- What `build_messages` and `build` return, for every configuration.
use nl_wireguard.Base.{
  ◌≤◌, ◌≡◌, ◌≢◌, refl, ◌↔◌, inl, inr, Bool, true, false, some, none, List, [], ◌∷◌, ◌++◌, arith,
  length, length-append, is_empty, Bool-cases, flatten_option, ◌||◌, not,
}
use nl_wireguard.Packet.{WireguardCmd, WireguardPeer, WireguardAttribute, WireguardMessage}
use nl_wireguard.Crates.{Crates}
use nl_wireguard.Error.{Result, ok, err, ok_of_bind}
use nl_wireguard.Peer.{WireguardPeerParsed}
use nl_wireguard.Device.{WireguardParsed, build_message, device_attributes, iface_attribute}
use nl_wireguard.Messages.{
  Builder, no_messages, add_peers, finish, build_messages, build, single_message,
}
use nl_wireguard.Messages.Groups.{all_chunks, Finished}
use nl_wireguard.Messages.Loops.{build_messages_ok}

right_false : (a b : Bool) → (a || b) ≡ false → b ≡ false
right_false true b h = cc
right_false false b h = h

length_of_not_empty {ℓ} : {A : Type ℓ} (xs : List A) → is_empty xs ≡ false → 1 ≤ length xs
length_of_not_empty [] h = cc
length_of_not_empty (x ∷ xs) h = omega arith

module _ (r : Result (List WireguardMessage)) where
  abbrev IsOne : WireguardMessage → Type 0
  IsOne message = (single_message r ≡ some (ok message)) ↔ (r ≡ ok (message ∷ []))

single_message_some :
    (r : Result (List WireguardMessage))
    → ((ms : List WireguardMessage) → r ≡ ok ms → 1 ≤ length ms)
    → single_message r ≢ none
unfolding single_message
single_message_some (err e) h = cc
single_message_some (ok []) h = absurd (omega (arith, h [] refl))
single_message_some (ok (m ∷ [])) h = cc
single_message_some (ok (m ∷ n ∷ ms)) h = ground arith

single_message_iff :
    (r : Result (List WireguardMessage)) (message : WireguardMessage) → IsOne r message
unfolding single_message
single_message_iff (err e) message = (λ h. cc, λ h. cc)
single_message_iff (ok []) message = (λ h. cc, λ h. cc)
single_message_iff (ok (m ∷ [])) message = (λ h. cc, λ h. cc)
single_message_iff (ok (m ∷ n ∷ ms)) message = (λ h. ground arith, λ h. cc)

module _ ⦃c : Crates⦄ (self : WireguardParsed) (cmd : WireguardCmd) where
  pub iface_of_device :
      (device : List WireguardAttribute)
      → device_attributes self ≡ ok device
      → (iface : WireguardAttribute) × (iface_attribute self ≡ ok iface)
  unfolding device_attributes
  iface_of_device device h =
      let (iface, made, h1) = ok_of_bind (iface_attribute self) _ h in (iface, made)

  -- A configuration with peers whose device attributes and chunks can be built is built: into
  -- messages whose peers are, one after the other, all the chunks in their order. The first
  -- message carries the device attributes and the others the interface alone. No message is
  -- without peers, unless there are none at all and one message says so, and the peers of a
  -- message stay within the limit of one attribute unless they are a single chunk.
  pub build_messages_total :
      (peers : List WireguardPeerParsed) (device : List WireguardAttribute)
      (chunks : List WireguardPeer)
      → self.peers ≡ some peers
      → device_attributes self ≡ ok device
      → all_chunks peers ≡ ok chunks
      → (iface : WireguardAttribute) × (iface_attribute self ≡ ok iface)
        × Finished self cmd device iface chunks (build_messages self cmd)
  build_messages_total peers device chunks has device_ok split =
      let (iface, iface_ok) = iface_of_device device device_ok in
      (
        iface,
        iface_ok,
        build_messages_ok self cmd device iface peers has device_ok iface_ok chunks split,
      )

  finish_not_empty :
      (b : Builder) (messages : List WireguardMessage)
      → finish self cmd b ≡ ok messages
      → 1 ≤ length messages
  unfolding finish
  finish_not_empty b messages h =
      elim (Bool-cases (not (is_empty b.peers) || is_empty b.messages)) [
        | inl last ↦
            let (message, built, pushed) =
              ok_of_bind (build_message self cmd (is_empty b.messages) b.peers)
                (λ m. ok (b.messages ++ m ∷ [])) (rw last at h) in
            let same : (b.messages ++ message ∷ []) ≡ messages = cc pushed in
            rw (← same) (omega (arith, length-append b.messages (message ∷ [])))
        | inr complete ↦
            let same : b.messages ≡ messages = cc ((rw complete at h)) in
            rw (← same)
              (length_of_not_empty b.messages (right_false (not (is_empty b.peers)) _ complete))
      ]

  build_messages_not_empty :
      (messages : List WireguardMessage)
      → build_messages self cmd ≡ ok messages
      → 1 ≤ length messages
  unfolding build_messages
  build_messages_not_empty messages h =
      let (b, added, finished) =
        ok_of_bind (add_peers self cmd no_messages (flatten_option self.peers)) (finish self cmd)
          h in
      finish_not_empty b messages finished

  -- `build` never panics: `build_messages` never succeeds with an empty list. It returns a message
  -- exactly when that is the only message of the configuration.
  pub build_lem :
      (message : WireguardMessage)
      → (build self cmd ≢ none)
        × ((build self cmd ≡ some (ok message)) ↔ (build_messages self cmd ≡ ok (message ∷ [])))
  unfolding build
  build_lem message = (
    single_message_some (build_messages self cmd) build_messages_not_empty,
    single_message_iff (build_messages self cmd) message,
  )
