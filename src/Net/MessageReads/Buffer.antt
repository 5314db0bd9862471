-- ===== src/Net/MessageReads/Buffer.antt =====
-- The read buffer: no round reads past its end, and its limit of 32000000 bytes is never met.
use whoa.Base.{
  ℕ, ◌+◌, ◌-◌, ◌<◌, ◌≤◌, ◌≡◌, refl, ap, ◌∙◌, arith, List, [], ◌++◌, Option, length, take, drop,
  length-append, length-take, length-drop, take-append-drop, leb, Bool-cases, Option-cases, inl,
  inr, All, min,
}
use whoa.Net.MessageReads.{Cipher, Reader, Frame, frame, bytes_to_read, deliver, receive, grow}
use whoa.Net.MessageReads.Bounds.{
  IsByte, All-append, All-prefix, All-suffix, frame-FrameOk, frame-append, header_grows, AtMost,
}

pub record CipherLaws (c : Cipher) : Type 0 where
  pub length-process : (k : c.Key) (xs : List ℕ) → length (c.process k xs).0 ≡ length xs
  pub process_bytes : (k : c.Key) (xs : List ℕ) → All IsByte xs → All IsByte (c.process k xs).0

-- A reader between two rounds.
pub record Inv (c : Cipher) (r : Reader c) : Type 0 where
  pub bytes : All IsByte r.bytes
  pub room : length r.bytes ≤ r.buffer_size
  pub least : 1024 ≤ r.buffer_size
  pub most : r.buffer_size ≤ 16777220
  pub asked : AtMost (length r.bytes) (frame r.bytes).header_size (frame r.bytes).size

module _ (c : Cipher) (laws : CipherLaws c) where
  open laws use {length-process, process_bytes}

  pub grow_lem :
      (r : Reader c)
      → Inv c r
      → (length r.bytes < (grow c r).buffer_size)
        × (1024 ≤ (grow c r).buffer_size)
        × ((grow c r).buffer_size ≤ 16777220)
        × ((grow c r).bytes ≡ r.bytes)
        × ((grow c r).encrypt ≡ r.encrypt)
  unfolding grow
  grow_lem r v = ground (arith, frame-FrameOk r.bytes v.bytes, v.asked)

  pub grow-Inv : (r : Reader c) → Inv c r → Inv c (grow c r)
  grow-Inv r v =
      let grown = grow_lem r v in
      record {
        bytes = rw grown.3 v.bytes;
        room = rw grown.3 (omega (arith, grown.0));
        least = grown.1;
        most = grown.2;
        asked = rw grown.3 v.asked;
      }

  -- What arrives is added behind the bytes held, decrypted or not.
  receive_lem :
      (f : Frame) (got : List ℕ) (r : Reader c)
      → All IsByte got
      → (x : List ℕ) × ((receive c f got r).bytes ≡ r.bytes ++ x)
        × (length x ≡ length got)
        × All IsByte x
        × ((receive c f got r).buffer_size ≡ r.buffer_size)
  unfolding receive
  receive_lem f got r b =
      let n = min (f.header_size + r.uint376 - length r.bytes) (length got) in
      let clear = (c.process r.receive_key (take n got)).0 in
      let parts = rw (← take-append-drop n got) at b in
      elim (Bool-cases r.encrypt) [
        | inl on ↦ (
          clear ++ drop n got,
          rw on refl,
          omega (
            arith,
            length-append clear (drop n got),
            length-process r.receive_key (take n got),
            length-take n got,
            length-drop n got,
          ),
          All-append clear (drop n got)
              (process_bytes r.receive_key (take n got)
                (All-prefix (take n got) (drop n got) parts))
              (All-suffix (take n got) (drop n got) parts),
          rw on refl,
        )
        | inr off ↦ (got, rw off refl, refl, b, rw off refl)
      ]

  pub size_empty : AtMost 0 (frame []).header_size (frame []).size
  unfolding frame
  size_empty = omega arith

  -- Handing a message on, or waiting for the rest of it, keeps the reader in order.
  deliver-Inv :
      (xs x : List ℕ) (r : Reader c)
      → r.bytes ≡ xs ++ x
      → All IsByte (xs ++ x)
      → length (xs ++ x) ≤ r.buffer_size
      → 1024 ≤ r.buffer_size
      → r.buffer_size ≤ 16777220
      → AtMost (length (xs ++ x)) (frame xs).header_size (frame xs).size
      → Inv c (deliver c (frame xs) r).1
  unfolding deliver
  deliver-Inv xs x r e b room least most asked = elim (Option-cases (frame xs).size) [
    | inl unknown ↦ rw unknown (record {
      bytes = rw e b;
      room = rw e room;
      least = least;
      most = most;
      asked = rw e (ground (arith, unknown, asked, frame-FrameOk (xs ++ x) b, header_grows xs x b));
    })
    | inr (n, known) ↦ elim (Bool-cases (leb n (length r.bytes))) [
      | inl whole ↦
          rw (known, whole)
            (record {
              bytes = tt;
              room = omega arith;
              least = least;
              most = most;
              asked = size_empty;
            })
      | inr part ↦
          rw (known, part)
            (record {
              bytes = rw e b;
              room = rw e room;
              least = least;
              most = most;
              asked =
                  rw (e, frame-append xs x n (All-prefix xs x b) known, known)
                    (ground (arith, ap length e));
            })
    ]
  ]

  -- The number of bytes asked for fits behind those held, in the buffer and in the message.
  pub bytes_to_read_lem :
      (f : Frame) (size len : ℕ)
      → f.header_size ≤ 3
      → 1024 ≤ size
      → len < size
      → AtMost len f.header_size f.size
      → (len + bytes_to_read f size len ≤ size)
        × AtMost (len + bytes_to_read f size len) f.header_size f.size
  bytes_to_read_lem f size len three k h a = elim (Option-cases f.size) [
    | inl unknown ↦ rw unknown (ground (arith, unknown, a))
    | inr (n, known) ↦ rw known (ground (arith, known, a))
  ]

  AtMost_mono : (len len' h : ℕ) (s : Option ℕ) → len ≤ len' → AtMost len' h s → AtMost len h s
  AtMost_mono len len' h s l a = ground (arith, a, Option-cases s)

  -- One round: the reader after receiving what a call returned, and handing a message on.
  pub round-Inv :
      (r : Reader c) (got : List ℕ)
      → Inv c r
      → All IsByte got
      → length got ≤ bytes_to_read (frame r.bytes) (grow c r).buffer_size (length r.bytes)
      → Inv c (deliver c (frame r.bytes) (receive c (frame r.bytes) got (grow c r))).1
  round-Inv r got v b l =
      let f = frame r.bytes in
      let grown = grow_lem r v in
      let (x, e, k, bx, s) = receive_lem f got (grow c r) b in
      let e' : (receive c f got (grow c r)).bytes ≡ r.bytes ++ x = e ∙ ap (λ l. l ++ x) grown.3 in
      let fits =
        bytes_to_read_lem f (grow c r).buffer_size (length r.bytes)
          (frame-FrameOk r.bytes v.bytes).most grown.1 grown.0 v.asked in
      let total : length (r.bytes ++ x) ≡ length r.bytes + length got =
        omega (arith, length-append r.bytes x, k) in
      deliver-Inv r.bytes x (receive c f got (grow c r)) e' (All-append r.bytes x v.bytes bx)
        (omega (arith, total, s, fits.0, l)) (omega (arith, s, grown.1)) (omega (arith, s, grown.2))
        (AtMost_mono (length (r.bytes ++ x))
          (length r.bytes + bytes_to_read f (grow c r).buffer_size (length r.bytes)) f.header_size
          f.size (omega (arith, total, l)) fits.1)
