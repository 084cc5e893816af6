-- ===== src/Node/Channels.antt =====
-- How the hub's two ways of sending change the channels of the peers.
use grapheno.Base.{
  ◌≡◌, refl, sym, subst, false, List, [], ◌∷◌, ◌++◌, inl, inr, ◌⊎◌, Bool-cases, text_eq, text_eq→eq,
  length, ltb,
}
use grapheno.Network.{Envelope}
use grapheno.Node.{PeerId, Peer, send_to, try_send, broadcast_except, outbound_buffer}

-- The same peers, each with the queue it had, or with one more envelope of the kind.
abbrev pub Grows : (PeerId → Envelope → Type 0) → List Peer → List Peer → Type 0
Grows E [] [] = Unit
Grows E [] (q ∷ qs) = ⊥
Grows E (k ∷ ks) [] = ⊥
Grows E (k ∷ ks) (q ∷ qs) =
    (q.0 ≡ k.0) × ((q.1 ≡ k.1) ⊎ ((e : Envelope) × (q.1 ≡ k.1 ++ e ∷ []) × E k.0 e)) × Grows E ks qs

module _ (E : PeerId → Envelope → Type 0) where
  pub Grows-self : (ps : List Peer) → Grows E ps ps
  Grows-self [] = tt
  Grows-self (k ∷ ks) = (refl, inl refl, Grows-self ks)

  pub send_to-Grows :
      (peer_id : PeerId) (e : Envelope) (ps : List Peer)
      → E peer_id e
      → Grows E ps (send_to peer_id e ps)
  unfolding send_to
  send_to-Grows peer_id e [] h = tt
  send_to-Grows peer_id e (k ∷ ks) h = elim (Bool-cases (text_eq k.0 peer_id)) [
    | inl same ↦ rw same (
      refl,
      inr (e, refl, subst (λ x. E x e) (sym (text_eq→eq k.0 peer_id same)) h),
      Grows-self ks,
    )
    | inr other ↦ rw other (refl, inl refl, send_to-Grows peer_id e ks h)
  ]

  pub broadcast_except-Grows :
      (except : PeerId) (e : Envelope) (ps : List Peer)
      → ((key : PeerId) → text_eq key except ≡ false → E key e)
      → Grows E ps (broadcast_except except e ps)
  unfolding broadcast_except try_send
  broadcast_except-Grows except e [] h = tt
  broadcast_except-Grows except e (k ∷ ks) h =
      let rest = broadcast_except-Grows except e ks h in
      elim (Bool-cases (text_eq k.0 except)) [
        | inl same ↦ rw same (refl, inl refl, rest)
        | inr other ↦ elim (Bool-cases (ltb (length k.1) outbound_buffer)) [
          | inl room ↦ rw (other, room) (refl, inr (e, refl, h k.0 other), rest)
          | inr full ↦ rw (other, full) (refl, inl refl, rest)
        ]
      ]
