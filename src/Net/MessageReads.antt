-- ===== src/Net/MessageReads.antt =====
-- src/net/connection/WowConnection.cpp, WowConnection::DoMessageReads. The cipher SARC4 is a
-- parameter; what the response object does with a message is not looked at, only which it is given.
pub mod Frames
pub mod Bounds
pub mod Buffer
pub mod Rounds
pub mod Prefix
pub mod Reassembly
mod Tests
use whoa.Base.{
  ℕ, zero, suc, ◌+◌, ◌-◌, ◌*◌, ◌^◌, bit_and, bit_or, List, [], ◌∷◌, ◌++◌, Option, none, some,
  length, take, drop, get_or, ltb, leb, ◌==◌, ◌&&◌, not, if◌then◌else◌, Bool, true, false, min,
}
use whoa.Net.Socket.{Socket, recv}

-- SARC4ProcessBuffer: the bytes and the key after them.
pub record Cipher : Type 1 where
  pub Key : Type 0
  pub process : Key → List ℕ → List ℕ × Key

-- The reading half of a connection. `bytes` are the m_readBytes bytes that m_readBuffer holds.
pub record Reader (c : Cipher) : Type 0 where
  pub allocated : Bool
  pub bytes : List ℕ
  pub buffer_size : ℕ
  pub encrypt : Bool
  pub receive_key : c.Key
  pub uint376 : ℕ

-- `size` and `headerSize`: of a message whose first bytes these are; no size yet is -1 there.
pub record Frame : Type 0 where
  pub header_size : ℕ
  pub size : Option ℕ

pub frame : List ℕ → Frame
frame bytes =
    let b = λ (i : ℕ). get_or bytes i 0 in
    if leb 2 (length bytes)
    then (if bit_and (b 0) 0x80 == 0
        then record { header_size = 2; size = some (bit_or (b 1) (bit_and (b 0) 0x7f * 2 ^ 8) + 2) }
        else record {
          header_size = 3;
          size =
              if leb 3 (length bytes)
              then some (bit_or (b 2) (bit_or (b 1) (bit_and (b 0) 0x7f * 2 ^ 8) * 2 ^ 8) + 3)
              else none;
        })
    else record { header_size = 2; size = none }

-- How many bytes to ask for. A difference that would be negative asks for none, as does zero.
abbrev pub bytes_to_read : Frame → ℕ → ℕ → ℕ
bytes_to_read f buffer_size read = elim f.size [
  | none ↦ f.header_size - read
  | some size ↦ if ltb (buffer_size - read) (size - read) then buffer_size - read else size - read
]

-- How a call ends: where its last round found nothing to read, by the size limit, or out of fuel.
pub data Ending : Type 0 where
  done disconnected no_fuel : Ending

pub record Outcome (c : Cipher) : Type 0 where
  pub reader : Reader c
  pub socket : Socket
  pub delivered : List (List ℕ)
  pub ending : Ending

module _ (c : Cipher) where
  -- A message is handed on when it is complete.
  pub deliver : Frame → Reader c → List (List ℕ) × Reader c
  deliver f r = elim f.size [
    | none ↦ ([], r)
    | some size ↦
        if leb size (length r.bytes)
        then (
          take (size - f.header_size) (drop f.header_size r.bytes) ∷ [],
          record r { bytes = [] },
        )
        else ([], r)
  ]

  -- Decrypting what was received, and adding it to the buffer.
  pub receive : Frame → List ℕ → Reader c → Reader c
  receive f got r =
      let n = min (f.header_size + r.uint376 - length r.bytes) (length got) in
      let (clear, key) = c.process r.receive_key (take n got) in
      if r.encrypt
      then record r { bytes = r.bytes ++ (clear ++ drop n got); receive_key = key }
      else record r { bytes = r.bytes ++ got }

  -- The buffer doubles when it is full.
  pub grow : Reader c → Reader c
  grow r =
      if leb r.buffer_size (length r.bytes) then record r { buffer_size = r.buffer_size * 2 } else r

  -- The rounds of the loop, with what was delivered so far.
  pub read_rounds : ℕ → Reader c → Socket → List (List ℕ) → Outcome c
  read_rounds zero r s sent = record { reader = r; socket = s; delivered = sent; ending = no_fuel }
  read_rounds (suc fuel) r s sent =
      let f = frame r.bytes in
      let grown = grow r in
      let n = bytes_to_read f grown.buffer_size (length r.bytes) in
      let (got, s') = if n == 0 then ([], s) else recv n s in
      let (out, r') = deliver f (receive f got grown) in
      let rest = read_rounds fuel r' s' (sent ++ out) in
      if leb r.buffer_size (length r.bytes) && ltb 32000000 grown.buffer_size
      then record { reader = grown; socket = s; delivered = sent; ending = disconnected }
      else if not (n == 0) && (length got == 0)
      then record { reader = grown; socket = s'; delivered = sent; ending = done }
      else if n == 0
      then record { reader = r'; socket = s'; delivered = sent ++ out; ending = done }
      else rest

  -- `DoMessageReads`
  pub do_message_reads : ℕ → Reader c → Socket → Outcome c
  unfolding read_rounds
  do_message_reads fuel r s =
      read_rounds fuel
        (if r.allocated then r else record r { allocated = true; bytes = []; buffer_size = 1024 }) s
        []
