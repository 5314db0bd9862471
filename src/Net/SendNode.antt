-- ===== src/Net/SendNode.antt =====
-- src/net/connection/WowConnection.cpp, WowConnection::SENDNODE: a message behind its size.
use whoa.Base.{
  ℕ, ◌+◌, ◌/◌, ◌^◌, bit_and, bit_or, List, [], ◌∷◌, ◌++◌, Option, none, some, take, ltb,
  if◌then◌else◌, Bool, min,
}

pub record SendNode : Type 0 where
  -- the bytes from `data` on, `size` of them
  pub bytes : List ℕ
  pub size : ℕ
  pub offset : ℕ
  pub datasize : ℕ
  pub header : List ℕ
  pub allocsize : ℕ

-- The size in big endian order; the shifts stand as quotients.
unfoldable pub size_header : ℕ → List ℕ
size_header size =
    if ltb 0x7fff size
    then bit_or (bit_and (size / 2 ^ 16) 0xff) 0x80
      ∷ bit_and (size / 2 ^ 8) 0xff
      ∷ bit_and size 0xff
      ∷ []
    else bit_and (size / 2 ^ 8) 0xff ∷ bit_and size 0xff ∷ []

-- `data` is none for a null pointer: then the message stands in `buf` already, and the header is
-- written in front of it.
unfoldable pub send_node : Option (List ℕ) → ℕ → List ℕ → Bool → SendNode
unfolding size_header
send_node from size buf raw =
    let message = take size (elim from [ none ↦ buf | some bytes ↦ bytes ]) in
    let whole = if raw then message else size_header size ++ message in
    let node_size = if raw then size else size + (if ltb 0x7fff size then 3 else 2) in
    record {
      bytes = whole;
      size = node_size;
      offset = 0;
      datasize = size;
      header = take (min node_size 8) whole;
      allocsize = 0;
    }
