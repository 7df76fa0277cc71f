-- ===== src/Tests/Xmodem.antt =====
-- lib/xmodem.js on small files.
use u_fork.Prelude.{◌≡◌, refl, [], ◌∷◌, ◌++◌, Option, none, some, length, replicate, arith}
use u_fork.Prelude.Int.{ℤ, pos, negsuc}
use u_fork.Xmodem.{
  Bytes, flush_input, wait_for_nak, finished, Sender, input, output, nothing, nak, fill_pkt_buf,
  run, respond, flush_input_cb, wait_for_nak_cb,
}
use u_fork.Xmodem.Packets.{padded, packet, fill_pkt_buf-packet}
use u_fork.Xmodem.Sequence.{answers, transmission, transfer-delivered}
use u_fork.Xmodem.Patience.{transfer_ends}

abbrev file : Bytes
file = replicate 128 7 ++ 200 ∷ 100 ∷ []

abbrev at_start : Sender
at_start = record { waiting = flush_input; ofs = pos 0; seq = 0; retry = 0; pkt_buf = [] }

abbrev ready : Sender
ready = record { waiting = wait_for_nak; ofs = pos 0; seq = 0; retry = 10; pkt_buf = [] }

-- Input is flushed, and the first request of the receiver times out.
flush_runs :
    run file (some 65 ∷ none ∷ none ∷ []) at_start
    ≡ (input 250 ∷ input 10000 ∷ input 5000 ∷ [], record ready { retry = 9 })
unfolding run respond flush_input_cb wait_for_nak_cb
flush_runs = refl

fill_pkt_buf-packet_example :
    (fill_pkt_buf file (pos 128) 2 ≡ 1 ∷ 2 ∷ 253 ∷ 200 ∷ 100 ∷ (replicate 126 0 ++ 44 ∷ []))
    × (length (fill_pkt_buf file (pos 128) 2) ≡ 132)
unfolding packet padded
fill_pkt_buf-packet_example = fill_pkt_buf-packet file 128 2

transfer-delivered_example :
    let (requests, s) = run file (some nak ∷ answers 2) ready in
    (requests ≡ transmission file 0 2) × (s.waiting ≡ finished (some (pos 1)))
transfer-delivered_example = transfer-delivered file ready refl

empty_transfer :
    let (requests, s) = run [] (some nak ∷ answers 0) ready in
    (requests ≡ output (4 ∷ []) ∷ nothing ∷ []) × (s.waiting ≡ finished (some (negsuc 0)))
empty_transfer = transfer-delivered [] ready refl

transfer_ends_example :
    (value : Option ℤ) × ((run (9 ∷ []) (some nak ∷ replicate 45 (some nak)) ready).1.waiting
      ≡ finished value)
transfer_ends_example =
    transfer_ends (9 ∷ []) (replicate 45 (some nak)) ready refl (omega arith) (omega arith)
