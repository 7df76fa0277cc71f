-- ===== src/Xmodem.antt =====
-- lib/xmodem.js: send, the XMODEM sender. The closures' variables are the sender's state, and the
-- callback that the next value goes to says what it waits for. A byte of the receiver or the count
-- of bytes transferred is `some`, and `undefined` is `none`.
pub mod Packets
pub mod Sequence
pub mod Patience
use u_fork.Prelude.{
  ℕ, zero, suc, ◌+◌, ◌-◌, ◌%◌, ◌^◌, Bool, ◌==◌, ltb, if◌then◌else◌, not, bit_and, List, [], ◌∷◌,
  ◌++◌, Option, none, some, length, get_or,
}
use u_fork.Prelude.Int.{ℤ, pos, negsuc, ◌+ℤ◌, sub_ℕ, ltb_ℤ}

abbrev pub Bytes : Type 0
Bytes = List ℕ

abbrev pub soh : ℕ
soh = 0x01

abbrev pub ack : ℕ
ack = 0x06

abbrev pub nak : ℕ
nak = 0x15

abbrev pub eot : ℕ
eot = 0x04

abbrev pub can : ℕ
can = 0x18

-- The callback that is to be called next; at the end, the value of the requestor's callback.
pub data Waiting : Type 0 where
  flush_input : Waiting
  wait_for_nak : Waiting
  wait_for_ack : Waiting
  packet_sent : Waiting
  end_transmission : Waiting
  finished : Option ℤ → Waiting

pub record Sender : Type 0 where
  pub waiting : Waiting
  pub ofs : ℤ
  pub seq : ℕ
  pub retry : ℕ
  pub pkt_buf : Bytes

-- What a callback asks for: a byte within a timeout, the output of bytes, or nothing more.
pub data Request : Type 0 where
  input : ℕ → Request
  output : Bytes → Request
  nothing : Request

-- `file[pos]`, or 0 behind the file. A position is not negative when a packet is filled.
abbrev pub byte_at : Bytes → ℤ → ℕ
byte_at file (pos p) = if ltb p (length file) then get_or file p 0 else 0
byte_at file (negsuc _) = 0

-- The loop over the payload, from `n` on with `count` bytes to go: the bytes and their sum.
unfoldable pub fill_payload : Bytes → ℤ → ℕ → ℕ → Bytes × ℕ
unfolding ◌+ℤ◌
fill_payload file ofs n zero = ([], 0)
fill_payload file ofs n (suc count) =
    let b = byte_at file (ofs +ℤ pos n) in
    let (payload, chk) = fill_payload file ofs (n + 1) count in (b ∷ payload, b + chk)

-- `~seq` is the complement of 32 bits.
unfoldable pub fill_pkt_buf : Bytes → ℤ → ℕ → Bytes
fill_pkt_buf file ofs seq =
    let (payload, chk) = fill_payload file ofs 0 128 in
    soh
    ∷ bit_and seq 0xFF
    ∷ bit_and (2 ^ 32 - 1 - seq % 2 ^ 32) 0xFF
    ∷ (payload ++ bit_and chk 0xFF ∷ [])

abbrev pub eot_pkt : Bytes
eot_pkt = eot ∷ []

-- `callback(value)`
abbrev pub calls_back : Option ℤ → Sender → Request × Sender
calls_back value s = (nothing, record s { waiting = finished value })

abbrev pub requests_input : Waiting → ℕ → Sender → Request × Sender
requests_input waiting timeout s = (input timeout, record s { waiting = waiting })

abbrev pub outputs : Waiting → Bytes → Sender → Request × Sender
outputs waiting buffer s = (output buffer, record s { waiting = waiting })

-- `value === byte`
abbrev pub is_byte : Option ℕ → ℕ → Bool
is_byte none byte = Bool.false
is_byte (some b) byte = b == byte

unfoldable pub wait_for_ack_cb : Bytes → Option ℕ → Sender → Request × Sender
wait_for_ack_cb file value s =
    let ofs = s.ofs +ℤ pos 128 in
    let packet = fill_pkt_buf file ofs (s.seq + 1) in
    if is_byte value can
    then calls_back none s
    else if is_byte value ack
    then (if not (ltb_ℤ ofs (pos (length file)))
        then outputs end_transmission eot_pkt (record s { ofs = ofs })
        else outputs packet_sent packet
            (record s { ofs = ofs; seq = s.seq + 1; retry = 10; pkt_buf = packet }))
    else if ltb 0 s.retry
    then outputs packet_sent s.pkt_buf (record s { retry = s.retry - 1 })
    else calls_back none s

unfoldable pub packet_sent_cb : Option ℕ → Sender → Request × Sender
packet_sent_cb none s = calls_back none s
packet_sent_cb (some _) s = requests_input wait_for_ack 5000 s

unfoldable pub end_transmission_cb : Option ℕ → Sender → Request × Sender
end_transmission_cb none s = calls_back none s
end_transmission_cb (some _) s = calls_back (some (sub_ℕ s.seq 1)) s

unfoldable pub wait_for_nak_cb : Bytes → Option ℕ → Sender → Request × Sender
wait_for_nak_cb file none s =
    if ltb 0 s.retry
    then requests_input wait_for_nak 5000 (record s { retry = s.retry - 1 })
    else calls_back none s
wait_for_nak_cb file (some b) s =
    if b == nak
    then wait_for_ack_cb file (some ack) (record s { ofs = negsuc 127; seq = 0 })
    else requests_input wait_for_nak 5000 s

unfoldable pub flush_input_cb : Option ℕ → Sender → Request × Sender
flush_input_cb none s = requests_input wait_for_nak 10000 (record s { retry = 10 })
flush_input_cb (some _) s = requests_input flush_input 250 s

-- The call of the callback that waits.
unfoldable pub respond : Bytes → Option ℕ → Sender → Request × Sender
respond file value s = elim s.waiting [
  | flush_input ↦ flush_input_cb value s
  | wait_for_nak ↦ wait_for_nak_cb file value s
  | wait_for_ack ↦ wait_for_ack_cb file value s
  | packet_sent ↦ packet_sent_cb value s
  | end_transmission ↦ end_transmission_cb value s
  | finished _ ↦ (nothing, s)
]

-- The requests that a sequence of values leads to, and the sender behind them.
unfoldable pub run : Bytes → List (Option ℕ) → Sender → List Request × Sender
run file [] s = ([], s)
run file (value ∷ values) s =
    let (request, s') = respond file value s in
    let (requests, s'') = run file values s' in (request ∷ requests, s'')
