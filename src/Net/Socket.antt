-- ===== src/Net/Socket.antt =====
-- A non-blocking stream socket as the sequence of what the calls of `recv` find: bytes that have
-- arrived together, or an interrupt. When nothing is left a call fails, as on EWOULDBLOCK.
use whoa.Base.{
  ℕ, ◌<◌, ◌≤◌, ◌≡◌, refl, ap, ◌∙◌, sym, arith, List, [], ◌∷◌, ◌++◌, length, take, drop,
  append_assoc, take-append-drop, length-take,
}

pub data Arrival : Type 0 where
  -- at least one byte
  chunk : ℕ → List ℕ → Arrival
  interrupt : Arrival

abbrev pub Socket : Type 0
Socket = List Arrival

-- The bytes still to come.
unfoldable pub pending : Socket → List ℕ
pending [] = []
pending (chunk x xs ∷ s) = x ∷ (xs ++ pending s)
pending (interrupt ∷ s) = pending s

-- What is left of a chunk after some of it was taken.
abbrev pub put_back : List ℕ → Socket → Socket
put_back [] s = s
put_back (x ∷ xs) s = chunk x xs ∷ s

-- The retry loop round `recv(sock, buf, n, 0)`, for n of at least one: the bytes received, none
-- where the call failed for another reason than an interrupt.
pub recv : ℕ → Socket → List ℕ × Socket
recv n [] = ([], [])
recv n (chunk x xs ∷ s) = (take n (x ∷ xs), put_back (drop n (x ∷ xs)) s)
recv n (interrupt ∷ s) = recv n s

pending-put_back : (xs : List ℕ) (s : Socket) → pending (put_back xs s) ≡ xs ++ pending s
unfolding pending
pending-put_back [] s = refl
pending-put_back (x ∷ xs) s = refl

-- Nothing is lost or reordered.
pub append-recv : (n : ℕ) (s : Socket) → (recv n s).0 ++ pending (recv n s).1 ≡ pending s
unfolding recv pending
append-recv n [] = refl
append-recv n (chunk x xs ∷ s) =
    ap (◌++◌ (take n (x ∷ xs))) (pending-put_back (drop n (x ∷ xs)) s)
    ∙ sym (append_assoc (take n (x ∷ xs)) (drop n (x ∷ xs)) (pending s))
    ∙ ap (λ l. l ++ pending s) (take-append-drop n (x ∷ xs))
append-recv n (interrupt ∷ s) = append-recv n s

-- No call returns more than it was asked for.
pub length-recv : (n : ℕ) (s : Socket) → length (recv n s).0 ≤ n
unfolding recv
length-recv n [] = omega arith
length-recv n (chunk x xs ∷ s) = omega (arith, length-take n (x ∷ xs))
length-recv n (interrupt ∷ s) = length-recv n s

-- A call that asks for bytes fails only when none are left.
pub recv_some : (n : ℕ) (s : Socket) → 0 < n → 0 < length (pending s) → 0 < length (recv n s).0
unfolding recv pending
recv_some n [] h p = absurd (omega arith)
recv_some n (chunk x xs ∷ s) h p = omega (arith, length-take n (x ∷ xs))
recv_some n (interrupt ∷ s) h p = recv_some n s h p
