-- ===== src/Xmodem/Sequence.antt =====
-- lib/xmodem.js: a transfer to a receiver that acknowledges each packet.
use u_fork.Prelude.{
  ℕ, zero, suc, ◌+◌, ◌*◌, ◌/◌, ◌≤◌, ◌<◌, ◌≡◌, refl, ap, ◌∙◌, true, false, ltb, List, [], ◌∷◌,
  Option, some, length, drop, arith,
}
use u_fork.Prelude.Int.{ℤ, pos, negsuc, ◌+ℤ◌, sub_ℕ}
use u_fork.Xmodem.{
  Bytes, Waiting, wait_for_nak, wait_for_ack, packet_sent, end_transmission, finished, Sender,
  Request, input, output, nothing, ack, nak, eot_pkt, wait_for_ack_cb, wait_for_nak_cb,
  packet_sent_cb, end_transmission_cb, respond, run,
}
use u_fork.Xmodem.Packets.{padded, packet, fill_pkt_buf_made, add_pos}

-- The packet of the file's block `k`, which is number k + 1.
abbrev pub packet_of : Bytes → ℕ → Bytes
packet_of file k = packet (k + 1) (padded 128 (drop (k * 128) file))

-- How many packets a file takes.
abbrev pub packet_count : Bytes → ℕ
packet_count file = (length file + 127) / 128

-- What is requested for the `n` packets from block `k` on, and at the end.
abbrev pub transmission : Bytes → ℕ → ℕ → List Request
transmission file k zero = output eot_pkt ∷ nothing ∷ []
transmission file k (suc n) = output (packet_of file k) ∷ input 5000 ∷ transmission file (k + 1) n

-- The output's and the receiver's answers: each packet of 132 bytes is sent, and acknowledged.
abbrev pub answers : ℕ → List (Option ℕ)
answers zero = some 1 ∷ []
answers (suc n) = some 132 ∷ some ack ∷ answers n

unfoldable pub sender : Waiting → ℤ → ℕ → ℕ → Bytes → Sender
sender waiting ofs seq retry pkt_buf = record {
  waiting = waiting;
  ofs = ofs;
  seq = seq;
  retry = retry;
  pkt_buf = pkt_buf;
}

pub first_ofs : negsuc 127 +ℤ pos 128 ≡ pos (0 * 128)
unfolding ◌+ℤ◌
first_ofs = refl

module _ (file : Bytes) where
  pub ack_more :
      (w : Waiting) (ofs : ℤ) (k r : ℕ) (b : Bytes)
      → ofs +ℤ pos 128 ≡ pos (k * 128)
      → k * 128 < length file
      → wait_for_ack_cb file (some ack) (sender w ofs k r b) ≡ (
        output (packet_of file k),
        sender packet_sent (pos (k * 128)) (k + 1) 10 (packet_of file k),
      )
  unfolding wait_for_ack_cb sender
  ack_more w ofs k r b e lt =
      rw e (rw (fill_pkt_buf_made file (k * 128) (k + 1), more (k * 128) (length file) lt) refl)
    where
      more : (a n : ℕ) → a < n → ltb (a + 0) (n + 0) ≡ true
      more a n lt = ground arith

  pub ack_last :
      (w : Waiting) (ofs : ℤ) (k r : ℕ) (b : Bytes)
      → ofs +ℤ pos 128 ≡ pos (k * 128)
      → length file ≤ k * 128
      → wait_for_ack_cb file (some ack) (sender w ofs k r b)
        ≡ (output eot_pkt, sender end_transmission (pos (k * 128)) k r b)
  unfolding wait_for_ack_cb sender
  ack_last w ofs k r b e le = rw e (rw (last (k * 128) (length file) le) refl)
    where
      last : (a n : ℕ) → n ≤ a → ltb (a + 0) (n + 0) ≡ false
      last a n le = ground arith

  -- The requests and the outcome once a packet is acknowledged, and all that follow.
  rest_delivered :
      (n k : ℕ) (w : Waiting) (ofs : ℤ) (r : ℕ) (b : Bytes)
      → ofs +ℤ pos 128 ≡ pos (k * 128)
      → k + n ≡ packet_count file
      → let (request, s) = wait_for_ack_cb file (some ack) (sender w ofs k r b) in
        let (requests, s') = run file (answers n) s in
        (request ∷ requests ≡ transmission file k n)
        × (s'.waiting ≡ finished (some (sub_ℕ (k + n) 1)))
  unfolding run respond sender packet_sent_cb end_transmission_cb
  rest_delivered zero k w ofs r b e count =
      rw (ack_last w ofs k r b e (omega arith))
        (refl, ap (λ m. finished (some (sub_ℕ m 1))) (none_left k))
    where
      none_left : (m : ℕ) → m ≡ m + 0
      none_left m = omega arith
  rest_delivered (suc n) k w ofs r b e count = rw (ack_more w ofs k r b e (omega arith)) (
      let (sent, ended) =
        rest_delivered n (k + 1) wait_for_ack (pos (k * 128)) 10 (packet_of file k) (next_ofs k)
          (omega arith) in
      (
        ap (λ (t : List Request). output (packet_of file k) ∷ input 5000 ∷ t) sent,
        ended ∙ ap (λ m. finished (some (sub_ℕ m 1))) (moved k n),
      ))
    where
      next_ofs : (m : ℕ) → pos (m * 128) +ℤ pos 128 ≡ pos ((m + 1) * 128)
      next_ofs m = add_pos (m * 128) 128 ∙ ap pos (omega arith)

      moved : (m l : ℕ) → m + 1 + l ≡ m + suc l
      moved m l = omega arith

  -- A receiver that asks a waiting sender for the file and acknowledges each packet gets the
  -- file's blocks of 128 bytes in order, numbered from 1, and the end of the transmission; the
  -- sender then reports one packet less than it sent, and -1 for an empty file.
  pub transfer-delivered :
      (s : Sender)
      → s.waiting ≡ wait_for_nak
      → let (requests, s') = run file (some nak ∷ answers (packet_count file)) s in
        (requests ≡ transmission file 0 (packet_count file))
        × (s'.waiting ≡ finished (some (sub_ℕ (packet_count file) 1)))
  unfolding run respond wait_for_nak_cb sender
  transfer-delivered s w = rw w (
      let (sent, ended) =
        rest_delivered (packet_count file) 0 wait_for_nak (negsuc 127) s.retry s.pkt_buf first_ofs
          (omega arith) in
      (sent, ended ∙ ap (λ m. finished (some (sub_ℕ m 1))) (from_zero (packet_count file))))
    where
      from_zero : (m : ℕ) → 0 + m ≡ m
      from_zero m = omega arith
