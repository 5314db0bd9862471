-- ===== src/Net/MessageReads/Rounds.antt =====
-- The rounds of DoMessageReads: what holds of the reader when they end, and that they end.
use whoa.Base.{
  ℕ, zero, suc, ◌<◌, ◌≤◌, ◌≡◌, ◌≢◌, refl, ap, arith, List, [], ◌++◌, length, length-append, leb,
  ltb, if◌then◌else◌, Bool-cases, inl, inr, All, true, false, ◌==◌, ◌&&◌, ◌⊎◌,
}
use whoa.Net.Socket.{Socket, pending, recv, append-recv, length-recv}
use whoa.Net.MessageReads.{
  Cipher, Reader, frame, bytes_to_read, done, disconnected, deliver, receive, grow, read_rounds,
  do_message_reads,
}
use whoa.Net.MessageReads.Bounds.{IsByte, All-prefix, All-suffix}
use whoa.Net.MessageReads.Buffer.{CipherLaws, Inv, grow_lem, grow-Inv, round-Inv, size_empty}

==_pos : (n : ℕ) → 0 < n → (n == 0) ≡ false
==_pos n h = ground arith

module _ (c : Cipher) (laws : CipherLaws c) where
  abbrev pub asked : Reader c → ℕ
  asked r = bytes_to_read (frame r.bytes) (grow c r).buffer_size (length r.bytes)

  pub under_limit :
      (r : Reader c)
      → Inv c r
      → (leb r.buffer_size (length r.bytes) && ltb 32000000 (grow c r).buffer_size) ≡ false
  under_limit r v = ground (arith, (grow_lem c laws r v).2)

  pub recv-All :
      (n : ℕ) (s : Socket)
      → All IsByte (pending s)
      → All IsByte (recv n s).0 × All IsByte (pending (recv n s).1)
  recv-All n s b =
      let e = rw (← append-recv n s) at b in
      (
        All-prefix (recv n s).0 (pending (recv n s).1) e,
        All-suffix (recv n s).0 (pending (recv n s).1) e,
      )

  -- What a round makes of the bytes it received.
  abbrev pub round : List ℕ → Reader c → List (List ℕ) × Reader c
  round got r = deliver c (frame r.bytes) (receive c (frame r.bytes) got (grow c r))

  pub read_rounds_end :
      (fuel : ℕ) (r : Reader c) (s : Socket) (sent : List (List ℕ))
      → Inv c r
      → 0 < asked r
      → length (recv (asked r) s).0 ≡ 0
      → read_rounds c (suc fuel) r s sent ≡ record {
        reader = grow c r;
        socket = (recv (asked r) s).1;
        delivered = sent;
        ending = done;
      }
  unfolding read_rounds
  read_rounds_end fuel r s sent v a e = rw (under_limit r v, ==_pos (asked r) a, e) refl

  pub read_rounds_go :
      (fuel : ℕ) (r : Reader c) (s : Socket) (sent : List (List ℕ))
      → Inv c r
      → 0 < asked r
      → 0 < length (recv (asked r) s).0
      → read_rounds c (suc fuel) r s sent
        ≡ read_rounds c fuel
            (round (recv (asked r) s).0 r).1
            (recv (asked r) s).1
            (sent ++ (round (recv (asked r) s).0 r).0)
  unfolding read_rounds
  read_rounds_go fuel r s sent v a e =
      rw (under_limit r v, ==_pos (asked r) a, ==_pos (length (recv (asked r) s).0) e) refl

  -- How the rounds go from here.
  abbrev Goes : ℕ → Reader c → Socket → List (List ℕ) → Type 0
  Goes fuel r s sent =
      ((read_rounds c fuel r s sent).ending ≢ disconnected)
      × Inv c (read_rounds c fuel r s sent).reader
      × ((fuel ≤ length (pending s)) ⊎ ((read_rounds c fuel r s sent).ending ≡ done))

  read_rounds-Inv :
      (fuel : ℕ) (r : Reader c) (s : Socket) (sent : List (List ℕ))
      → Inv c r
      → All IsByte (pending s)
      → Goes fuel r s sent
  unfolding read_rounds
  read_rounds-Inv zero r s sent v b = ((λ e. ground arith), v, inl (omega arith))
  read_rounds-Inv (suc fuel) r s sent v b = elim (Bool-cases (asked r == 0)) [
    | inl zero_n ↦
        rw (under_limit r v, zero_n)
          ((λ e. ground arith), round-Inv c laws r [] v tt (omega arith), inr refl)
    | inr some_n ↦ elim (Bool-cases (length (recv (asked r) s).0 == 0)) [
      | inl nothing ↦
          rw (under_limit r v, some_n, nothing) ((λ e. ground arith), grow-Inv c laws r v, inr refl)
      | inr got ↦
          let (heard, later) = recv-All (asked r) s b in
          let rest =
            read_rounds-Inv fuel (round (recv (asked r) s).0 r).1 (recv (asked r) s).1
              (sent ++ (round (recv (asked r) s).0 r).0)
              (round-Inv c laws r (recv (asked r) s).0 v heard (length-recv (asked r) s)) later in
          let less : suc (length (pending (recv (asked r) s).1)) ≤ length (pending s) = ground (
            arith,
            got,
            ap length (append-recv (asked r) s),
            length-append (recv (asked r) s).0 (pending (recv (asked r) s).1),
          ) in
          rw (under_limit r v, some_n, got)
            (
              rest.0,
              rest.1,
              elim rest.2 [ inl few ↦ inl (omega (arith, few, less)) | inr ends ↦ inr ends ],
            )
    ]
  ]

  -- A connection before its first read, or between two of them.
  abbrev pub Ready : Reader c → Type 0
  Ready r = (r.allocated ≡ false) ⊎ ((r.allocated ≡ true) × Inv c r)

  pub fresh-Inv :
      (r : Reader c) → Inv c (record r { allocated = true; bytes = []; buffer_size = 1024 })
  fresh-Inv r = record {
    bytes = tt;
    room = omega arith;
    least = omega arith;
    most = omega arith;
    asked = size_empty c laws;
  }

  pub do_message_reads-new :
      (fuel : ℕ) (r : Reader c) (s : Socket)
      → r.allocated ≡ false
      → do_message_reads c fuel r s
        ≡ read_rounds c fuel (record r { allocated = true; bytes = []; buffer_size = 1024 }) s []
  unfolding do_message_reads
  do_message_reads-new fuel r s e =
      ap
        (λ b.
          read_rounds c fuel
            (if b then r else record r { allocated = true; bytes = []; buffer_size = 1024 }) s [])
        e

  do_message_reads-kept :
      (fuel : ℕ) (r : Reader c) (s : Socket)
      → r.allocated ≡ true
      → do_message_reads c fuel r s ≡ read_rounds c fuel r s []
  unfolding do_message_reads
  do_message_reads-kept fuel r s e =
      ap
        (λ b.
          read_rounds c fuel
            (if b then r else record r { allocated = true; bytes = []; buffer_size = 1024 }) s [])
        e

  do_message_reads-Goes :
      (fuel : ℕ) (r : Reader c) (s : Socket)
      → Ready r
      → All IsByte (pending s)
      → ((do_message_reads c fuel r s).ending ≢ disconnected)
        × Inv c (do_message_reads c fuel r s).reader
        × ((fuel ≤ length (pending s)) ⊎ ((do_message_reads c fuel r s).ending ≡ done))
  do_message_reads-Goes fuel r s (inl e) b = rw (do_message_reads-new fuel r s e) (
      read_rounds-Inv fuel (record r { allocated = true; bytes = []; buffer_size = 1024 }) s []
        (fresh-Inv r) b)
  do_message_reads-Goes fuel r s (inr (e, v)) b =
      rw (do_message_reads-kept fuel r s e) (read_rounds-Inv fuel r s [] v b)

  -- With a cipher that maps bytes to as many bytes, and a connection that has not read yet or is
  -- between two reads, after any number of rounds the bytes held fit in the buffer, whose size is
  -- between 1024 and 16777220, and the connection was not dropped for the size of its buffer.
  pub do_message_reads_bounds :
      (fuel : ℕ) (r : Reader c) (s : Socket)
      → Ready r
      → All IsByte (pending s)
      → ((do_message_reads c fuel r s).ending ≢ disconnected)
        × (length (do_message_reads c fuel r s).reader.bytes
            ≤ (do_message_reads c fuel r s).reader.buffer_size)
        × (1024 ≤ (do_message_reads c fuel r s).reader.buffer_size)
        × ((do_message_reads c fuel r s).reader.buffer_size ≤ 16777220)
  do_message_reads_bounds fuel r s v b =
      let (stays, inv, ends) = do_message_reads-Goes fuel r s v b in
      (stays, inv.room, inv.least, inv.most)

  -- With a cipher that maps bytes to as many bytes, and a connection that has not read yet or is
  -- between two reads, more rounds than there are bytes to come are enough: the loop ends because
  -- a round finds nothing to read.
  pub do_message_reads_ends :
      (fuel : ℕ) (r : Reader c) (s : Socket)
      → Ready r
      → All IsByte (pending s)
      → length (pending s) < fuel
      → (do_message_reads c fuel r s).ending ≡ done
  do_message_reads_ends fuel r s v b h = elim (do_message_reads-Goes fuel r s v b).2 [
    | inl few ↦ absurd (omega (arith, few, h))
    | inr ends ↦ ends
  ]
