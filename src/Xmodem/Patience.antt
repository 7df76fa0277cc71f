-- ===== src/Xmodem/Patience.antt =====
-- lib/xmodem.js: how long a transfer takes, whatever the receiver answers.
use u_fork.Prelude.{
  ℕ, ◌+◌, ◌-◌, ◌*◌, ◌/◌, ◌≤◌, ◌<◌, ◌≡◌, refl, sym, ap, subst, true, false, not, ltb, List, [], ◌∷◌,
  Option, none, some, ◌⊎◌, inl, inr, length, if_both, if_cases, arith,
}
use u_fork.Prelude.Int.{ℤ, pos, negsuc, sub_ℕ, pos_part, ltb_ℤ}
use u_fork.Xmodem.{
  Bytes, Waiting, flush_input, wait_for_nak, wait_for_ack, packet_sent, end_transmission, finished,
  Sender, Request, can, ack, nak, wait_for_nak_cb, is_byte, calls_back, outputs, eot_pkt,
  fill_pkt_buf, wait_for_ack_cb, packet_sent_cb, end_transmission_cb, respond, run,
}
use u_fork.Xmodem.Packets.{add_pos}
use u_fork.Xmodem.Sequence.{packet_count, packet_of, sender, ack_more, ack_last, first_ofs}

-- A transfer has begun.
abbrev pub HasBegun : Waiting → Type 0
HasBegun flush_input = ⊥
HasBegun wait_for_nak = ⊥
HasBegun _ = Unit

-- A sender that sends a file: its offset is not negative, and at most 10 retries remain.
pub record IsSending (s : Sender) : Type 0 where
  pub position : ℕ
  pub at : s.ofs ≡ pos position
  pub tries : s.retry ≤ 10
  pub begun : HasBegun s.waiting

-- A bound of the values that a transfer still takes: two for each try of each packet.
abbrev tries_left : Bytes → Sender → ℕ
tries_left file s = 11 * ((length file - pos_part s.ofs + 127) / 128) + s.retry

abbrev weight : Waiting → ℕ → ℕ
weight flush_input n = 0
weight wait_for_nak n = 0
weight wait_for_ack n = 2 * n + 2
weight packet_sent n = 2 * n + 3
weight end_transmission n = 1
weight (finished _) n = 0

abbrev patience : Bytes → Sender → ℕ
patience file s = weight s.waiting (tries_left file s)

-- A reply that leaves a sender with less patience than `n`, or with none.
record Wears (file : Bytes) (n : ℕ) (reply : Request × Sender) : Type 0 where
  sending : IsSending reply.1
  worn : patience file reply.1 ≤ n - 1

-- Only a finished sender has no patience left.
patience_none :
    (file : Bytes) (s : Sender)
    → IsSending s
    → patience file s ≡ 0
    → (value : Option ℤ) × (s.waiting ≡ finished value)
patience_none file s sending e = ended s.waiting (tries_left file s) sending.begun e
  where
    ended :
        (w : Waiting) (n : ℕ)
        → HasBegun w
        → weight w n ≡ 0
        → (value : Option ℤ) × (w ≡ finished value)
    ended flush_input n b e = absurd b
    ended wait_for_nak n b e = absurd b
    ended wait_for_ack n b e = absurd (omega arith)
    ended packet_sent n b e = absurd (omega arith)
    ended end_transmission n b e = absurd (omega arith)
    ended (finished value) n b e = (value, refl)

module _ (file : Bytes) (p q r : ℕ) (b : Bytes) (le : r ≤ 10) where
  abbrev awaiting : Waiting → Sender
  awaiting w = record { waiting = w; ofs = pos p; seq = q; retry = r; pkt_buf = b }

  abbrev most : ℕ
  most = 2 * (11 * ((length file - p + 127) / 128) + r) + 2

  stopped-Wears :
      (n : ℕ) (w : Waiting) (value : Option ℤ) → Wears file n (calls_back value (awaiting w))
  stopped-Wears n w value = record {
    sending = record { position = p; at = refl; tries = le; begun = tt };
    worn = omega arith;
  }

  ended-Wears :
      Wears file most
        (outputs end_transmission eot_pkt (record (awaiting wait_for_ack) { ofs = pos (p + 128) }))
  ended-Wears = record {
    sending = record { position = p + 128; at = refl; tries = le; begun = tt };
    worn = omega arith;
  }

  advanced-Wears :
      (packet : Bytes)
      → p + 128 < length file
      → Wears file most (
          outputs packet_sent packet (record (awaiting wait_for_ack) {
            ofs = pos (p + 128);
            seq = q + 1;
            retry = 10;
            pkt_buf = packet;
          }))
  advanced-Wears packet lt = record {
    sending = record { position = p + 128; at = refl; tries = omega arith; begun = tt };
    worn = omega arith;
  }

  retried-Wears :
      0 < r
      → Wears file most (outputs packet_sent b (record (awaiting wait_for_ack) { retry = r - 1 }))
  retried-Wears some_left = record {
    sending = record { position = p; at = refl; tries = omega arith; begun = tt };
    worn = omega arith;
  }

  wait_for_ack_cb-Wears :
      (value : Option ℕ) → Wears file most (wait_for_ack_cb file value (awaiting wait_for_ack))
  unfolding wait_for_ack_cb
  wait_for_ack_cb-Wears value = rw (add_pos p 128) (
      if_both (Wears file most) (is_byte value can) (stopped-Wears most wait_for_ack none) (
        if_both (Wears file most) (is_byte value ack)
          (if_cases (Wears file most) (not (ltb_ℤ (pos (p + 128)) (pos (length file))))
            (λ _. ended-Wears)
            (λ more.
              advanced-Wears (fill_pkt_buf file (pos (p + 128)) (q + 1))
                (before (p + 128) (length file) more)))
          (if_cases (Wears file most) (ltb 0 r)
            (λ some_left. retried-Wears (more_than_none r some_left))
            (λ _. stopped-Wears most wait_for_ack none))))
    where
      before : (a b : ℕ) → not (ltb (a + 0) (b + 0)) ≡ false → a < b
      before a b h = ground arith

      more_than_none : (a : ℕ) → ltb 0 a ≡ true → 0 < a
      more_than_none a h = ground arith

  respond-Wears :
      (w : Waiting) (value : Option ℕ)
      → HasBegun w
      → Wears file (patience file (awaiting w)) (respond file value (awaiting w))
  unfolding respond packet_sent_cb end_transmission_cb
  respond-Wears flush_input value begun = absurd begun
  respond-Wears wait_for_nak value begun = absurd begun
  respond-Wears wait_for_ack value begun = wait_for_ack_cb-Wears value
  respond-Wears packet_sent none begun =
      stopped-Wears (patience file (awaiting packet_sent)) packet_sent none
  respond-Wears packet_sent (some _) begun = record {
    sending = record { position = p; at = refl; tries = le; begun = tt };
    worn = omega arith;
  }
  respond-Wears end_transmission none begun = stopped-Wears 1 end_transmission none
  respond-Wears end_transmission (some _) begun =
      stopped-Wears 1 end_transmission (some (sub_ℕ q 1))
  respond-Wears (finished value') value begun = record {
    sending = record { position = p; at = refl; tries = le; begun = tt };
    worn = omega arith;
  }

module _ (file : Bytes) where
  step-Wears :
      (s : Sender) (value : Option ℕ)
      → IsSending s
      → Wears file (patience file s) (respond file value s)
  step-Wears s value sending =
      subst (λ (t : Sender). Wears file (patience file t) (respond file value t))
        (ap (λ o. record s { ofs = o }) (sym sending.at))
        (respond-Wears file sending.position s.seq s.retry s.pkt_buf sending.tries s.waiting value
          sending.begun)

  run_ends :
      (values : List (Option ℕ)) (s : Sender)
      → IsSending s
      → patience file s ≤ length values
      → (value : Option ℤ) × ((run file values s).1.waiting ≡ finished value)
  unfolding run
  run_ends [] s sending enough = patience_none file s sending (omega arith)
  run_ends (v ∷ values) s sending enough =
      let wears = step-Wears s v sending in
      run_ends values (respond file v s).1 wears.sending (omega (arith, wears.worn))

  -- Once the receiver has asked for the file, a sender of at most 10 retries finishes, with
  -- success or not, within two values for each of eleven tries of each packet and 23 more,
  -- whatever these values are.
  pub transfer_ends :
      (values : List (Option ℕ)) (s : Sender)
      → s.waiting ≡ wait_for_nak
      → s.retry ≤ 10
      → 22 * packet_count file + 23 ≤ length values
      → (value : Option ℤ) × ((run file (some nak ∷ values) s).1.waiting ≡ finished value)
  unfolding run respond wait_for_nak_cb sender
  transfer_ends values s w tries enough = rw w (elim (some_or_none (length file)) [
    | inl more ↦
        rw (ack_more file wait_for_nak (negsuc 127) 0 s.retry s.pkt_buf first_ofs (omega arith)) (
          run_ends values (sender packet_sent (pos (0 * 128)) (0 + 1) 10 (packet_of file 0))
            (record { position = 0; at = refl; tries = omega arith; begun = tt }) (omega arith))
    | inr empty ↦
        rw (ack_last file wait_for_nak (negsuc 127) 0 s.retry s.pkt_buf first_ofs (omega arith)) (
          run_ends values (sender end_transmission (pos (0 * 128)) 0 s.retry s.pkt_buf)
            (record { position = 0; at = refl; tries = tries; begun = tt }) (omega arith))
  ])
    where
      some_or_none : (n : ℕ) → (0 < n) ⊎ (n ≡ 0)
      some_or_none n = ground arith
