-- ===== src/Tcpip/Arp/Fields.antt =====
-- tcpip/arp/arp.c: the fields of an answer, byte by byte.
use my_exercise.Prelude.{ℕ, ◌+◌, ◌%◌, ◌^◌, ◌<◌, ◌≤◌, ◌≡◌, ◌⊎◌, ◌∙◌, ap, refl, arith, inl, inr}
use my_exercise.Bytes.{Memory, load32, store8, store32, memcpy}
use my_exercise.Bytes.Laws.{load32_cong}
use my_exercise.Tcpip.Route.{Netdev}
use my_exercise.Tcpip.Eth.{within, eth_smac, eth_header}
use my_exercise.Tcpip.Arp.{eth_p_arp, arp_ntoh, reply_packet}

-- The addresses of an answer to the packet `p`: at the front the sender of `p` and the interface, in the
-- payload the interface and the sender of `p`.
pub record IsAnswer (dev : Netdev) (p q : Memory) : Type 0 where
  pub to : (k : ℕ) → k < 6 → q k ≡ p (6 + k)
  pub from : (k : ℕ) → k < 6 → q (6 + k) ≡ dev.net_hwaddr k
  pub ethertype : (q 12 ≡ 8) × (q 13 ≡ 6)
  pub opcode : (q 20 ≡ 0) × (q 21 ≡ 2)
  pub sender : (k : ℕ) → k < 6 → q (22 + k) ≡ dev.net_hwaddr k
  pub sender_ip : load32 q 28 ≡ dev.net_ipaddr % 2 ^ 32
  pub target : (k : ℕ) → k < 6 → q (32 + k) ≡ p (22 + k)
  pub target_ip : load32 q 38 ≡ load32 p 28 % 2 ^ 32

ntoh_out : (p : Memory) (a : ℕ) → a < 14 ⊎ 22 ≤ a → arp_ntoh p a ≡ p a
unfolding arp_ntoh store8
ntoh_out p a h = ground arith

reply_front : (dev : Netdev) (p : Memory) (a : ℕ) → a < 14 → reply_packet dev p a ≡ p a
unfolding reply_packet store8 store32 memcpy
reply_front dev p a h = ground arith

reply_sender :
    (dev : Netdev) (p : Memory) (k : ℕ) → k < 6 → reply_packet dev p (22 + k) ≡ dev.net_hwaddr k
unfolding reply_packet store8 store32 memcpy
reply_sender dev p k h = ground arith

reply_target :
    (dev : Netdev) (p : Memory) (k : ℕ) → k < 6 → reply_packet dev p (32 + k) ≡ p (22 + k)
unfolding reply_packet store8 store32 memcpy
reply_target dev p k h = ground arith

header_payload :
    (dev : Netdev) (p : Memory) (a : ℕ)
    → 14 ≤ a
    → eth_header dev eth_p_arp (within eth_smac) p a ≡ p a
unfolding eth_header store8 memcpy
header_payload dev p a h = ground arith

header_front :
    (dev : Netdev) (p : Memory) (k : ℕ)
    → k < 6
    → (eth_header dev eth_p_arp (within eth_smac) p k ≡ p (6 + k))
      × (eth_header dev eth_p_arp (within eth_smac) p (6 + k) ≡ dev.net_hwaddr k)
unfolding eth_header store8 memcpy
header_front dev p k h = ground arith

reply_sender_ip :
    (dev : Netdev) (p : Memory) → load32 (reply_packet dev p) 28 ≡ dev.net_ipaddr % 2 ^ 32
unfolding reply_packet store8 store32 memcpy load32
reply_sender_ip dev p = omega arith

reply_target_ip :
    (dev : Netdev) (p : Memory) → load32 (reply_packet dev p) 38 ≡ load32 p 28 % 2 ^ 32
unfolding reply_packet store8 store32 memcpy load32
reply_target_ip dev p = omega arith

reply_opcode :
    (dev : Netdev) (p : Memory) → (reply_packet dev p 20 ≡ 0) × (reply_packet dev p 21 ≡ 2)
unfolding reply_packet store8 store32 memcpy
reply_opcode dev p = (refl, refl)

header_type :
    (dev : Netdev) (p : Memory)
    → (eth_header dev eth_p_arp (within eth_smac) p 12 ≡ 8)
      × (eth_header dev eth_p_arp (within eth_smac) p 13 ≡ 6)
unfolding eth_header store8 memcpy
header_type dev p = (refl, refl)

ntoh_word : (p : Memory) (a : ℕ) → 22 ≤ a → load32 (arp_ntoh p) a ≡ load32 p a
ntoh_word p a h =
    load32_cong (arp_ntoh p) p a a (ntoh_out p a (inr h)) (ntoh_out p (a + 1) (inr (omega arith)))
      (ntoh_out p (a + 2) (inr (omega arith))) (ntoh_out p (a + 3) (inr (omega arith)))

module _ (dev : Netdev) (p : Memory) where
  -- The packet that `arp_reply` hands to `net_tx`, and the frame that goes out.
  abbrev reply : Memory
  reply = reply_packet dev (arp_ntoh p)

  abbrev out : Memory
  out = eth_header dev eth_p_arp (within eth_smac) reply

  header_word : (a : ℕ) → 14 ≤ a → load32 out a ≡ load32 reply a
  header_word a h =
      load32_cong out reply a a (header_payload dev reply a h)
        (header_payload dev reply (a + 1) (omega arith))
        (header_payload dev reply (a + 2) (omega arith))
        (header_payload dev reply (a + 3) (omega arith))

  pub reply-IsAnswer : IsAnswer dev p out
  reply-IsAnswer = record {
    to = λ k h.
        (header_front dev reply k h).0
        ∙ reply_front dev (arp_ntoh p) (6 + k) (omega arith)
        ∙ ntoh_out p (6 + k) (inl (omega arith));
    from = λ k h. (header_front dev reply k h).1;
    ethertype = header_type dev reply;
    opcode = (
      header_payload dev reply 20 (omega arith) ∙ (reply_opcode dev (arp_ntoh p)).0,
      header_payload dev reply 21 (omega arith) ∙ (reply_opcode dev (arp_ntoh p)).1,
    );
    sender =
        λ k h. header_payload dev reply (22 + k) (omega arith) ∙ reply_sender dev (arp_ntoh p) k h;
    sender_ip = header_word 28 (omega arith) ∙ reply_sender_ip dev (arp_ntoh p);
    target = λ k h.
        header_payload dev reply (32 + k) (omega arith)
        ∙ reply_target dev (arp_ntoh p) k h
        ∙ ntoh_out p (22 + k) (inr (omega arith));
    target_ip =
        header_word 38 (omega arith)
        ∙ reply_target_ip dev (arp_ntoh p)
        ∙ ap (λ v. v % 2 ^ 32) (ntoh_word p 28 (omega arith));
  }
