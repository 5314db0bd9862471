-- ===== src/Net/MessageReads/Tests.antt =====
-- The reading loop on concrete messages.
use whoa.Base.{
  ℕ, suc, ◌+◌, ◌%◌, ◌≤◌, ◌≡◌, ◌≢◌, refl, ap, arith, List, [], ◌∷◌, ◌++◌, some, length, map, All,
  inl, false,
}
use whoa.Net.Socket.{Socket, chunk, interrupt, pending}
use whoa.Net.SendNode.{size_header, send_node}
use whoa.Net.MessageReads.{Cipher, Reader, frame, done, disconnected, do_message_reads}
use whoa.Net.MessageReads.Bounds.{IsByte}
use whoa.Net.MessageReads.Buffer.{CipherLaws}
use whoa.Net.MessageReads.Frames.{frame-size_header}
use whoa.Net.MessageReads.Rounds.{do_message_reads_bounds, do_message_reads_ends}
use whoa.Net.MessageReads.Reassembly.{do_message_reads-sent}

-- A cipher that adds its key to each byte.
abbrev shift : Cipher
shift = record { Key = ℕ; process = λ k xs. (map (λ x. (x + k) % 256) xs, k + 1) }

length-map : (f : ℕ → ℕ) (xs : List ℕ) → length (map f xs) ≡ length xs
length-map f [] = refl
length-map f (x ∷ xs) = ap suc (length-map f xs)

shift_bytes : (k : ℕ) (xs : List ℕ) → All IsByte (map (λ x. (x + k) % 256) xs)
shift_bytes k [] = tt
shift_bytes k (x ∷ xs) = (omega arith, shift_bytes k xs)

abbrev shift_laws : CipherLaws shift
shift_laws = record {
  length-process = λ k xs. length-map (λ x. (x + k) % 256) xs;
  process_bytes = λ k xs b. shift_bytes k xs;
}

abbrev new_reader : Reader shift
new_reader = record {
  allocated = false;
  bytes = [];
  buffer_size = 0;
  encrypt = false;
  receive_key = 0;
  uint376 = 0;
}

-- Two messages, cut in the middle of the first and of the second's header.
abbrev socket : Socket
socket = chunk 0 (3 ∷ 7 ∷ []) ∷ interrupt ∷ chunk 8 (9 ∷ 0 ∷ []) ∷ chunk 1 (5 ∷ []) ∷ []

abbrev messages : List (List ℕ)
messages = (7 ∷ 8 ∷ 9 ∷ []) ∷ (5 ∷ []) ∷ []

do_message_reads-sent_example :
    ((do_message_reads shift 20 new_reader socket).delivered ≡ messages)
    × ((do_message_reads shift 20 new_reader socket).reader.bytes ≡ [])
    × ((do_message_reads shift 20 new_reader socket).ending ≡ done)
unfolding pending send_node size_header
do_message_reads-sent_example =
    do_message_reads-sent shift shift_laws 20 new_reader socket messages refl refl (omega arith)
      refl (omega arith)

do_message_reads_bounds_example :
    ((do_message_reads shift 2 new_reader socket).ending ≢ disconnected)
    × (length (do_message_reads shift 2 new_reader socket).reader.bytes
        ≤ (do_message_reads shift 2 new_reader socket).reader.buffer_size)
    × (1024 ≤ (do_message_reads shift 2 new_reader socket).reader.buffer_size)
    × ((do_message_reads shift 2 new_reader socket).reader.buffer_size ≤ 16777220)
unfolding pending
do_message_reads_bounds_example =
    do_message_reads_bounds shift shift_laws 2 new_reader socket (inl refl) (omega arith)

do_message_reads_ends_example : (do_message_reads shift 20 new_reader socket).ending ≡ done
unfolding pending
do_message_reads_ends_example =
    do_message_reads_ends shift shift_laws 20 new_reader socket (inl refl) (omega arith)
      (omega arith)

frame-size_header_example :
    frame (size_header 300 ++ (7 ∷ [])) ≡ record { header_size = 2; size = some 302 }
frame-size_header_example = frame-size_header 300 (7 ∷ [])
