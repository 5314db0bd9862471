-- ===== src/Net/MessageReads/Reassembly.antt =====
-- What one side sends as nodes, the other side's reading loop delivers.
use whoa.Base.{
  ℕ, zero, suc, ◌+◌, ◌-◌, ◌<◌, ◌≤◌, ◌≡◌, refl, ap, ◌∙◌, sym, arith, List, [], ◌∷◌, ◌++◌, some,
  length, length-append, append-nil, append_assoc, inl, inr, ◌⊎◌, All, true, false,
}
use whoa.Net.Socket.{Socket, pending, recv, append-recv, length-recv, recv_some}
use whoa.Net.SendNode.{size_header, send_node}
use whoa.Net.MessageReads.{Cipher, Reader, done, read_rounds, do_message_reads}
use whoa.Net.MessageReads.Bounds.{IsByte, All-append, frame_nil}
use whoa.Net.MessageReads.Buffer.{CipherLaws, Inv, grow_lem, round-Inv}
use whoa.Net.MessageReads.Rounds.{
  asked, round, recv-All, read_rounds_end, read_rounds_go, fresh-Inv, do_message_reads-new,
  do_message_reads_ends,
}
use whoa.Net.MessageReads.Prefix.{
  on_wire, Sendable, round_part, round_whole, split_append, frame-part, frame-on_wire,
  on_wire-bytes, take_all,
}

abbrev pub stream : List (List ℕ) → List ℕ
stream [] = []
stream (p ∷ ps) = on_wire p ++ stream ps

append_empty : (xs ys : List ℕ) → xs ++ ys ≡ [] → (xs ≡ []) × (ys ≡ [])
append_empty [] ys e = (refl, e)
append_empty (x ∷ xs) ys e = cc e

nil_or_more : (xs : List ℕ) → (xs ≡ []) ⊎ (0 < length xs)
nil_or_more [] = inl refl
nil_or_more (x ∷ xs) = inr (omega arith)

-- The bytes held are less than a message.
abbrev pub Short : List ℕ → List (List ℕ) → Type 0
Short xs [] = Unit
Short xs (p ∷ ps) = length xs < length (on_wire p)

none_held : (ps : List (List ℕ)) → All Sendable ps → Short [] ps
none_held [] ok = tt
none_held (p ∷ ps) ok = omega (arith, length-append (size_header (length p)) p, ok.0.1)

-- What is sent when each message is made a node and the nodes are sent one after another.
abbrev pub sent_bytes : List (List ℕ) → List ℕ
sent_bytes [] = []
sent_bytes (p ∷ ps) = (send_node (some p) (length p) [] false).bytes ++ sent_bytes ps

send_node_bytes : (p : List ℕ) → (send_node (some p) (length p) [] false).bytes ≡ on_wire p
unfolding send_node
send_node_bytes p = ap (λ l. size_header (length p) ++ l) (take_all p)

sent_bytes-stream : (ps : List (List ℕ)) → sent_bytes ps ≡ stream ps
sent_bytes-stream [] = refl
sent_bytes-stream (p ∷ ps) = rw (send_node_bytes p, sent_bytes-stream ps) refl

stream_bytes : (ps : List (List ℕ)) → All Sendable ps → All IsByte (stream ps)
stream_bytes [] ok = tt
stream_bytes (p ∷ ps) ok =
    All-append (on_wire p) (stream ps) (on_wire-bytes p ok.0) (stream_bytes ps ok.1)

module _ (c : Cipher) (laws : CipherLaws c) where
  -- As long as a message is incomplete the loop asks for more of it, and for no more than that.
  asked_lem :
      (p ys : List ℕ) (r : Reader c)
      → Inv c r
      → Sendable p
      → r.bytes ++ ys ≡ on_wire p
      → length r.bytes < length (on_wire p)
      → (0 < asked c laws r) × (length r.bytes + asked c laws r ≤ length (on_wire p))
  asked_lem p ys r v h e l =
      let grown = grow_lem c laws r v in
      elim (frame-part p r.bytes ys h e) [
        | inl (unknown, small, rest) ↦
            rw unknown (omega (arith, rest, small, length-append (size_header (length p)) p))
        | inr known ↦ rw (known, frame-on_wire p h) (ground (arith, grown.0, l))
      ]

  asked_idle : (r : Reader c) → r.bytes ≡ [] → 0 < asked c laws r
  asked_idle r e = rw (e, frame_nil) (omega arith)

  reassemble :
      (fuel : ℕ) (r : Reader c) (s : Socket) (sent ps : List (List ℕ))
      → r.encrypt ≡ false
      → Inv c r
      → All Sendable ps
      → All IsByte (pending s)
      → r.bytes ++ pending s ≡ stream ps
      → Short r.bytes ps
      → length (pending s) < fuel
      → ((read_rounds c fuel r s sent).delivered ≡ sent ++ ps)
        × ((read_rounds c fuel r s sent).reader.bytes ≡ [])
  reassemble zero r s sent ps plain v ok b e short enough = absurd (omega arith)
  reassemble (suc fuel) r s sent [] plain v ok b e short enough =
      let n = asked c laws r in
      let (idle, over) = append_empty r.bytes (pending s) e in
      let nothing = append_empty (recv n s).0 (pending (recv n s).1) (append-recv n s ∙ over) in
      rw (read_rounds_end c laws fuel r s sent v (asked_idle r idle) (ap length nothing.0))
        (sym (append-nil sent), (grow_lem c laws r v).3 ∙ idle)
  reassemble (suc fuel) r s sent (p ∷ ps) plain v ok b e short enough =
      let n = asked c laws r in
      let got = (recv n s).0 in
      let later = (recv n s).1 in
      let (ys, part, coming) =
        split_append r.bytes (pending s) (on_wire p) (stream ps) e (omega (arith, short)) in
      let (some_n, in_message) = asked_lem p ys r v ok.0 part short in
      let lack : length ys ≡ length (on_wire p) - length r.bytes =
        omega (arith, ap length part, length-append r.bytes ys) in
      let some_got : 0 < length got =
        recv_some n s some_n
          (omega (arith, lack, short, ap length coming, length-append ys (stream ps))) in
      let (heard, ahead) = recv-All c laws n s b in
      let (zs, fits, left) =
        split_append got (pending later) ys (stream ps) (append-recv n s ∙ coming)
          (omega (arith, lack, length-recv n s, in_message)) in
      let v' = round-Inv c laws r got v heard (length-recv n s) in
      let less : length (pending later) < fuel =
        omega (
          arith,
          enough,
          some_got,
          ap length (append-recv n s),
          length-append got (pending later),
        ) in
      let joined : (r.bytes ++ got) ++ zs ≡ on_wire p =
        append_assoc r.bytes got zs ∙ ap (◌++◌ r.bytes) fits ∙ part in
      elim (nil_or_more zs) [
        | inl whole ↦
            let (out, held, still) =
              round_whole c laws p got r plain ok.0
                (sym (append-nil (r.bytes ++ got))
                  ∙ ap (◌++◌ (r.bytes ++ got)) (sym whole)
                  ∙ joined)
                (length-recv n s) in
            let rest =
              reassemble fuel (round c laws got r).1 later (sent ++ (round c laws got r).0) ps still
                v' ok.1 ahead
                (ap (λ l. l ++ pending later) held ∙ left ∙ ap (λ l. l ++ stream ps) whole)
                (rw held (none_held ps ok.1)) less in
            rw (read_rounds_go c laws fuel r s sent v some_n some_got)
              (rest.0 ∙ ap (λ o. (sent ++ o) ++ ps) out ∙ append_assoc sent (p ∷ []) ps, rest.1)
        | inr more ↦
            let (out, held, still) = round_part c laws p got zs r plain ok.0 joined more in
            let rest =
              reassemble fuel (round c laws got r).1 later (sent ++ (round c laws got r).0) (p ∷ ps)
                still v' ok ahead
                (ap (λ l. l ++ pending later) held
                  ∙ ap (◌++◌ (r.bytes ++ got)) left
                  ∙ sym (append_assoc (r.bytes ++ got) zs (stream ps))
                  ∙ ap (λ l. l ++ stream ps) joined)
                (omega (
                  arith,
                  ap length held,
                  ap length joined,
                  length-append (r.bytes ++ got) zs,
                  more,
                ))
                less in
            rw (read_rounds_go c laws fuel r s sent v some_n some_got) (
              rest.0
                  ∙ ap (λ o. (sent ++ o) ++ (p ∷ ps)) out
                  ∙ ap (λ l. l ++ (p ∷ ps)) (append-nil sent),
              rest.1,
            )
      ]

  do_message_reads-stream :
      (fuel : ℕ) (r : Reader c) (s : Socket) (ps : List (List ℕ))
      → r.allocated ≡ false
      → r.encrypt ≡ false
      → All Sendable ps
      → All IsByte (pending s)
      → pending s ≡ stream ps
      → length (pending s) < fuel
      → ((do_message_reads c fuel r s).delivered ≡ ps)
        × ((do_message_reads c fuel r s).reader.bytes ≡ [])
  do_message_reads-stream fuel r s ps new plain ok b e enough =
      rw (do_message_reads-new c laws fuel r s new) (
        reassemble fuel (record r { allocated = true; bytes = []; buffer_size = 1024 }) s [] ps
          plain (fresh-Inv c laws r) ok b e (none_held ps ok) enough)

  -- With a cipher that maps bytes to as many bytes, a connection that has not read yet and does not
  -- encrypt, and a socket that brings the bytes of the nodes made for some messages, in whatever
  -- portions: each message between one byte and 2 ^ 23 - 1 bytes long, the loop delivers these
  -- messages, in order, keeps no byte, and ends by itself.
  pub do_message_reads-sent :
      (fuel : ℕ) (r : Reader c) (s : Socket) (ps : List (List ℕ))
      → r.allocated ≡ false
      → r.encrypt ≡ false
      → All Sendable ps
      → pending s ≡ sent_bytes ps
      → length (pending s) < fuel
      → ((do_message_reads c fuel r s).delivered ≡ ps)
        × ((do_message_reads c fuel r s).reader.bytes ≡ [])
        × ((do_message_reads c fuel r s).ending ≡ done)
  do_message_reads-sent fuel r s ps new plain ok e enough =
      let e' = e ∙ sent_bytes-stream ps in
      let b = rw (← e') at (stream_bytes ps ok) in
      let (all, none_left) = do_message_reads-stream fuel r s ps new plain ok b e' enough in
      (all, none_left, do_message_reads_ends c laws fuel r s (inl new) b enough)
